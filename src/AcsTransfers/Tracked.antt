-- ===== src/AcsTransfers/Tracked.antt =====
-- What the functions of cwmp_plugin/cwmp_plugin_transfer.c keep of the uploads that are on the way.
use tr069_manager.Base.{
  ℕ, ◌≡◌, refl, inl, inr, Bool, true, false, not, ◌&&◌, ◌||◌, Option, none, some, List, [], ◌∷◌,
  ◌++◌, arith, ◌==◌, Option-cases, is_some, CString, codes, strstr, is_empty,
}
use tr069_manager.AcsTransfers.Defs.{
  Time, Status, finished, AcsTransfer, Args, UploadContext, Action, update, World, perform,
  put_transfer,
}
use tr069_manager.AcsTransfers.Status.{transfer_update_status, update_transfer_obj}

abbrev pub any {ℓ} : {A : Type ℓ} → (A → Bool) → List A → Bool
any p [] = false
any p (x ∷ l) = p x || any p l

pub any-append {ℓ} :
    {A : Type ℓ} (p : A → Bool) (xs ys : List A) → any p (xs ++ ys) ≡ (any p xs || any p ys)
any-append p [] ys = refl
any-append p (x ∷ xs) ys = ground (arith, any-append p xs ys)

-- A file type that an upload is made for.
abbrev pub is_supported : CString → Bool
is_supported type =
    strstr type (codes "2 Vendor Log File")
    || (strstr type (codes "4 Vendor Log File")
        || (strstr type (codes "1 Vendor Configuration File")
            || strstr type (codes "3 Vendor Configuration File")))

abbrev pub has_type : Option CString → Bool
has_type none = false
has_type (some type) = not (is_empty type) && is_supported type

abbrev pub is_upload_of : ℕ → Args × ℕ → Bool
is_upload_of i (args, delay) = args.index == i && has_type args.file_type

abbrev pub is_test_of : ℕ → Args → Bool
is_test_of i args = args.index == i

abbrev pub is_context_of : ℕ → UploadContext → Bool
is_context_of i u = u.index == i

abbrev pub is_report_of : ℕ → Action → Bool
is_report_of i (update j finished) = j == i
is_report_of i action = false

-- The upload waits for its timer, its self test or its end, or its end was reported.
abbrev pub is_tracked : ℕ → World → Bool
is_tracked i w =
    any (is_upload_of i) w.upload_timers
    || (any (is_test_of i) w.selftest_requests
        || (any (is_context_of i) w.upload_requests || any (is_report_of i) w.log))

abbrev pub implies : Bool → Bool → Bool
implies a b = not a || b

-- Nothing that is known of an upload is lost.
abbrev pub Adds : ℕ → World → World → Type 0
Adds i w w' =
    (implies (is_some (w.transfers i)) (is_some (w'.transfers i)) ≡ true)
    × (implies (any (is_upload_of i) w.upload_timers) (any (is_upload_of i) w'.upload_timers)
        ≡ true)
    × (implies (any (is_test_of i) w.selftest_requests) (any (is_test_of i) w'.selftest_requests)
        ≡ true)
    × (implies (any (is_context_of i) w.upload_requests) (any (is_context_of i) w'.upload_requests)
        ≡ true)
    × (implies (any (is_report_of i) w.log) (any (is_report_of i) w'.log) ≡ true)

pub Adds-refl : (i : ℕ) (w : World) → Adds i w w
Adds-refl i w = (ground arith, ground arith, ground arith, ground arith, ground arith)

pub Adds-trans : (i : ℕ) (u v w : World) → Adds i u v → Adds i v w → Adds i u w
Adds-trans i u v w (a, b, c, d, f) (a', b', c', d', f') = (
  ground (arith, a, a'),
  ground (arith, b, b'),
  ground (arith, c, c'),
  ground (arith, d, d'),
  ground (arith, f, f'),
)

pub perform-Adds : (i : ℕ) (action : Action) (w : World) → Adds i w (perform action w)
perform-Adds i action w = (
  ground arith,
  ground arith,
  ground arith,
  ground arith,
  ground (arith, any-append (is_report_of i) w.log (action ∷ [])),
)

pub put-Adds : (i j : ℕ) (t : AcsTransfer) (w : World) → Adds i w (put_transfer j t w)
unfolding put_transfer
put-Adds i j t w = (ground arith, ground arith, ground arith, ground arith, ground arith)

written-Adds :
    (i j : ℕ) (t : AcsTransfer) (action : Action) (w : World)
    → Adds i w (perform action (put_transfer j t w))
written-Adds i j t action w =
    Adds-trans i w (put_transfer j t w) (perform action (put_transfer j t w)) (put-Adds i j t w)
      (perform-Adds i action (put_transfer j t w))

pub transfer_update_status-Adds :
    (i j : ℕ) (s : Status) (start complete : Time) (code : ℕ) (text : Option CString) (w : World)
    → Adds i w (transfer_update_status j s start complete code text w)
unfolding transfer_update_status
transfer_update_status-Adds i j s start complete code text w = elim (Option-cases (w.transfers j)) [
  | inl n ↦ rw (n, transfer_update_status) (Adds-refl i w)
  | inr (t, n) ↦ rw (n, transfer_update_status) (written-Adds i j _ (update j s) w)
]

-- The end of a transfer that exists is reported.
pub transfer_update_status_reports :
    (i : ℕ) (start complete : Time) (code : ℕ) (text : Option CString) (w : World)
    → is_some (w.transfers i) ≡ true
    → any (is_report_of i) (transfer_update_status i finished start complete code text w).log ≡ true
unfolding transfer_update_status put_transfer
transfer_update_status_reports i start complete code text w here =
    ground (arith, here, any-append (is_report_of i) w.log (update i finished ∷ []))

pub update_transfer_obj-Adds :
    (i j : ℕ) (s : Status) (complete : Option Time) (code : Option ℕ) (w : World)
    → Adds i w (update_transfer_obj j s complete code w)
unfolding update_transfer_obj
update_transfer_obj-Adds i j s complete code w = elim (Option-cases (w.transfers j)) [
  | inl n ↦ rw (n, update_transfer_obj) (Adds-refl i w)
  | inr (t, n) ↦ rw (n, update_transfer_obj) (written-Adds i j _ (update j s) w)
]
