-- ===== src/Dns/Delay.antt =====
-- When the next lookup starts (cwmp_dns_schedule in dmmain/cwmpd_dns.c).
use tr069_manager.Base.{
  ℕ, ◌-◌, ◌*◌, ◌^◌, ◌≤◌, ◌<◌, ◌≡◌, refl, ◌↔◌, true, false, some, List, [], ◌∷◌, arith, pos,
  if◌then◌else◌, CString, All, ℤ,
}
use tr069_manager.Dns.Defs.{Node, found, Dns, Env, arm}
use tr069_manager.Dns.Answer.{int_max, int_lt, send_pending_bootstrap, take_answer}
use tr069_manager.Dns.Reading.{listed, least_ttl, take_answer-found}

int_lt_above : (a b c : ℤ) → int_lt a b ≡ true → int_lt a c ≡ false → int_lt b c ≡ false
int_lt_above a b c below above = ground (arith, below, above)

int_lt_trans_false : (a b c : ℤ) → int_lt a b ≡ false → int_lt b c ≡ false → int_lt a c ≡ false
int_lt_trans_false a b c p q = ground (arith, p, q)

least_of :
    (t m : ℤ) (l : List (CString × ℤ))
    → m ≡ least_ttl t l
    → (int_lt t m ≡ false) × All (λ a. int_lt a.1 m ≡ false) l
least_of t m [] e = (ground (arith, e), tt)
least_of t m ((ip, ttl) ∷ l) e =
    let ih = least_of (if int_lt ttl t then ttl else t) m l e in
    (
      ground (arith, ih.0, int_lt_above ttl t m),
      (ground (arith, ih.0, int_lt_trans_false ttl t m), ih.1),
    )

-- The TTL that is taken is at most each TTL of the answer.
pub least_ttl-le :
    (t : ℤ) (l : List (CString × ℤ)) → All (λ a. int_lt a.1 (least_ttl t l) ≡ false) l
least_ttl-le t l = (least_of t (least_ttl t l) l refl).1

-- After an answer whose least TTL is n seconds, neither 0 nor the greatest int, the timer of the next
-- lookup is started for n * 1000 milliseconds exactly where n is at most 4294967, and for a shorter
-- time for any greater n.
pub lookup_delay_iff :
    (e : Env) (node : Node) (nodes : List Node) (n : ℕ) (s : Dns)
    → s.has_timer ≡ true
    → least_ttl int_max (listed [] (node ∷ nodes)) ≡ pos n
    → 0 < n
    → n < 2 ^ 31 - 1
    → ((take_answer e false (found node nodes) s).ttl_timer ≡ some (n * 1000)) ↔ (n ≤ 4294967)
unfolding send_pending_bootstrap arm
lookup_delay_iff e node nodes n s timer least positive fits =
    rw (take_answer-found e node nodes s) (ground (arith, timer, least, positive, fits))
