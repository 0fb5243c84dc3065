-- ===== src/Balancer/Timeout.antt =====
-- Which frontend servers the load balancer takes for alive.
use distributed_cloud_storag.Prelude.{
  ℕ, ◌≡◌, refl, sym, ap, ◌∙◌, Bool, true, false, ◌&&◌, ◌||◌, inl, inr, Bool-cases, List, [], ◌∷◌,
  Option, none, some, arith, ◌==◌, ◌+◌, ltb, ==_iff, if◌then◌else◌,
}
use distributed_cloud_storag.Balancer.State.{
  Balancer, at, put, ports, is_late, check_ports, check_timeout,
}

abbrev pub is_in : ℕ → List ℕ → Bool
is_in p [] = false
is_in p (q ∷ qs) = q == p || is_in p qs

at-put :
    {A : Type 0} (p q : ℕ) (a : A) (m : List (ℕ × A))
    → at q (put p a m) ≡ (if p == q then some a else at q m)
unfolding at put
at-put p q a [] = ground arith
at-put p q a ((r, b) ∷ m) = ground (arith, at-put p q a m)

module _ (now p : ℕ) where
  -- A port that is late is down after the pass.
  abbrev status_after : List ℕ → Balancer → Option Bool
  status_after qs b = if is_in p qs && is_late now (at p b.last) then some false else at p b.status

  late_head :
      (q : ℕ) (qs : List ℕ) (b : Balancer)
      → is_late now (at q b.last) ≡ true
      → status_after qs (record b { status = put q false b.status }) ≡ status_after (q ∷ qs) b
  late_head q qs b late = elim (Bool-cases (q == p)) [
    | inl same ↦
        let e : is_late now (at p b.last) ≡ true =
          ap (λ r. is_late now (at r b.last)) (sym ((==_iff q p).0 same)) ∙ late in
        ground (arith, at-put q p false b.status)
    | inr other ↦ ground (arith, at-put q p false b.status)
  ]

  fresh_head :
      (q : ℕ) (qs : List ℕ) (b : Balancer)
      → is_late now (at q b.last) ≡ false
      → status_after qs b ≡ status_after (q ∷ qs) b
  fresh_head q qs b fresh = elim (Bool-cases (q == p)) [
    | inl same ↦
        let e : is_late now (at p b.last) ≡ false =
          ap (λ r. is_late now (at r b.last)) (sym ((==_iff q p).0 same)) ∙ fresh in
        ground arith
    | inr other ↦ ground arith
  ]

  check_ports_lem :
      (qs : List ℕ) (b : Balancer) → at p (check_ports now qs b).status ≡ status_after qs b
  unfolding check_ports
  check_ports_lem [] b = refl
  check_ports_lem (q ∷ qs) b =
      let b' = record b { status = put q false b.status } in
      elim (Bool-cases (is_late now (at q b.last))) [
        | inl late ↦
            ap (λ c. at p (check_ports now qs (if c then b' else b)).status) late
            ∙ check_ports_lem qs b'
            ∙ late_head q qs b late
        | inr fresh ↦
            ap (λ c. at p (check_ports now qs (if c then b' else b)).status) fresh
            ∙ check_ports_lem qs b
            ∙ fresh_head q qs b fresh
      ]

-- No heartbeat for more than five seconds; `time` is that of the last one, if there was one.
abbrev pub overdue : ℕ → Option ℕ → Bool
overdue now none = false
overdue now (some time) = ltb (time + 5) now

is_late-overdue : (now : ℕ) (last : Option ℕ) → is_late now last ≡ overdue now last
unfolding is_late
is_late-overdue now none = refl
is_late-overdue now (some time) = ground arith

abbrev pub frontends : List ℕ
frontends = 20000 ∷ 20001 ∷ 20002 ∷ []

-- After a pass over the ports, the frontend server at 20000, 20001 or 20002 is down if it has sent a
-- heartbeat and the last one is more than five seconds ago; the status of every other port, and of
-- one that is not late, is as it was.
pub check_timeout_lem :
    (now p : ℕ) (b : Balancer)
    → at p (check_timeout now b).status
      ≡ (if is_in p frontends && overdue now (at p b.last) then some false else at p b.status)
unfolding check_timeout
check_timeout_lem now p b = check_ports_lem now p ports b ∙ (λ i.
    if is_in p frontends && is_late-overdue now (at p b.last) i then some false else at p b.status)
