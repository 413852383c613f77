-- ===== src/Client/Qos.antt =====
-- What the QoS is told of the address of the ACS (update_qos_info in dmmain/cwmpd_client.c).
use tr069_manager.Base.{
  ◌≡◌, refl, ap, inl, inr, true, not, ◌&&◌, Option, none, some, List, [], ◌∷◌, ◌++◌, arith, pos,
  negsuc, if◌then◌else◌, ==_iff, Bool-cases, CString, streq_refl, streq→eq, ℤ, is_nonpos,
}
use tr069_manager.Client.Defs.{Client, Action, update_qos, Env}
use tr069_manager.Client.Address.{is_ipaddr, ip_type, same_text, int_eq, update_qos_info}

same_text→eq : (a b : Option CString) → same_text a b ≡ true → a ≡ b
same_text→eq none none s = refl
same_text→eq none (some b) s = ground (arith, s)
same_text→eq (some a) none s = ground (arith, s)
same_text→eq (some a) (some b) s = ap some (streq→eq a b s)

int_eq→eq : (m n : ℤ) → int_eq m n ≡ true → m ≡ n
int_eq→eq (pos m) (pos n) s = ap pos ((==_iff m n).0 s)
int_eq→eq (pos m) (negsuc n) s = ground (arith, s)
int_eq→eq (negsuc m) (pos n) s = ground (arith, s)
int_eq→eq (negsuc m) (negsuc n) s = ap negsuc ((==_iff m n).0 s)

same_text_refl : (a : Option CString) → same_text a a ≡ true
same_text_refl none = refl
same_text_refl (some a) = streq_refl a

int_eq_refl : (m : ℤ) → int_eq m m ≡ true
int_eq_refl (pos m) = (==_iff m m).1 refl
int_eq_refl (negsuc m) = (==_iff m m).1 refl

-- The updates of a list, with what the QoS is told.
unfoldable pub update_all : Env → List (Option CString × ℤ) → Client → Client × List Action
update_all e [] c = (c, [])
update_all e ((ip, port) ∷ updates) c =
    let (c', told) = update_qos_info e ip port c in
    let rest = update_all e updates c' in (rest.0, told ++ rest.1)

-- What the QoS is told when the address goes from the old one to the new one.
abbrev pub change : Env → Option CString → ℤ → Option CString → ℤ → List Action
change e old_ip old_port ip port =
    if same_text old_ip ip && int_eq old_port port
    then []
    else update_qos (is_ipaddr e ip && not (is_nonpos port)) ip port (ip_type e ip) ∷ []

abbrev pub changes : Env → Option CString → ℤ → List (Option CString × ℤ) → List Action
changes e old_ip old_port [] = []
changes e old_ip old_port ((ip, port) ∷ updates) =
    change e old_ip old_port ip port ++ changes e ip port updates

abbrev pub last_update : Option CString × ℤ → List (Option CString × ℤ) → Option CString × ℤ
last_update old [] = old
last_update old (u ∷ updates) = last_update u updates

update_step :
    (e : Env) (c : Client) (ip : Option CString) (port : ℤ)
    → ((update_qos_info e ip port c).0 ≡ record c { qos_ip = ip; qos_port = port })
unfolding update_qos_info
update_step e c ip port = elim (Bool-cases (same_text c.qos_ip ip && int_eq c.qos_port port)) [
  | inl s ↦
      let p = same_text→eq c.qos_ip ip (ground (arith, s)) in
      let q = int_eq→eq c.qos_port port (ground (arith, s)) in ground (arith, s, p, q)
  | inr s ↦ ground (arith, s)
]

update_step_tells :
    (e : Env) (c : Client) (ip : Option CString) (port : ℤ)
    → (update_qos_info e ip port c).1 ≡ change e c.qos_ip c.qos_port ip port
unfolding update_qos_info
update_step_tells e c ip port = ground arith

-- Over any sequence of updates the QoS is told exactly of each address and port that differ from
-- those of the update before, with its enable flag and its IP version, and what is stored in the end
-- is what the last update gave.
pub updates_told :
    (e : Env) (updates : List (Option CString × ℤ)) (c : Client)
    → ((update_all e updates c).1 ≡ changes e c.qos_ip c.qos_port updates)
      × ((update_all e updates c).0 ≡ record c {
        qos_ip = (last_update (c.qos_ip, c.qos_port) updates).0;
        qos_port = (last_update (c.qos_ip, c.qos_port) updates).1;
      })
unfolding update_all
updates_told e [] c = (refl, refl)
updates_told e ((ip, port) ∷ updates) c =
    let rest = updates_told e updates (record c { qos_ip = ip; qos_port = port }) in
    rw (update_step e c ip port, update_step_tells e c ip port)
      (ap (λ told. change e c.qos_ip c.qos_port ip port ++ told) rest.0, rest.1)
