-- ===== src/Balancer/Choice.antt =====
-- The load balancer chooses the live server with the least load.
use distributed_cloud_storag.Prelude.{
  ℕ, ◌≡◌, refl, ap, Bool, true, false, ◌&&◌, ◌⊎◌, inl, inr, Bool-cases, List, [], ◌∷◌, ◌++◌, arith,
  if◌then◌else◌, All,
}
use distributed_cloud_storag.Prelude.Int.{ℤ, pos, ltz}
use distributed_cloud_storag.Balancer.State.{
  Balancer, load_of, client_port, choose_from, choose_port,
}

ltz_trans : (a b c : ℤ) → ltz a b ≡ true → ltz b c ≡ true → ltz a c ≡ true
unfolding ltz
ltz_trans a b c h k = ground arith

ltz_of_not : (a b c : ℤ) → ltz a b ≡ true → ltz c b ≡ false → ltz a c ≡ true
unfolding ltz
ltz_of_not a b c h k = ground arith

-- No live server has a load below `n`, or one that is not above `n`.
abbrev NoneBelow : Balancer → ℤ → List (ℕ × Bool) → Type 0
NoneBelow b n = All (λ s. (s.1 && ltz (load_of s.0 b) n) ≡ false)

abbrev AllAbove : Balancer → ℤ → List (ℕ × Bool) → Type 0
AllAbove b n = All (λ s. (if s.1 then ltz n (load_of s.0 b) else true) ≡ true)

above :
    (live : Bool) (m n k : ℤ)
    → (live && ltz m n) ≡ false
    → ltz k n ≡ true
    → (if live then ltz k m else true) ≡ true
above true m n k skip below = ltz_of_not k n m below skip
above false m n k skip below = refl

-- The server that was chosen among `status`, where a load below `n` was asked for.
pub record Best (b : Balancer) (status : List (ℕ × Bool)) (n port : ℤ) : Type 0 where
  pub before : List (ℕ × Bool)
  pub server : ℕ
  pub behind : List (ℕ × Bool)
  pub place : status ≡ before ++ (server, true) ∷ behind
  pub is_port : port ≡ client_port server
  pub below : ltz (load_of server b) n ≡ true
  pub less : AllAbove b (load_of server b) before
  pub least : NoneBelow b (load_of server b) behind

-- No live server is below, or the best one was chosen.
abbrev pub Found : Balancer → List (ℕ × Bool) → ℤ → ℤ → ℤ → Type 0
Found b status n port r = (NoneBelow b n status × (r ≡ port)) ⊎ Best b status n r

module _ (b : Balancer) where
  -- A server that is not live, or not below, is passed over.
  passed :
      (p : ℕ) (live : Bool) (rest : List (ℕ × Bool)) (n port r : ℤ)
      → (live && ltz (load_of p b) n) ≡ false
      → Found b rest n port r
      → Found b ((p, live) ∷ rest) n port r
  passed p live rest n port r skip (inl (h, e)) = inl ((skip, h), e)
  passed p live rest n port r skip (inr x) = inr (record {
    before = (p, live) ∷ x.before;
    server = x.server;
    behind = x.behind;
    place = ap (λ l. (p, live) ∷ l) x.place;
    is_port = x.is_port;
    below = x.below;
    less = (above live (load_of p b) n (load_of x.server b) skip x.below, x.less);
    least = x.least;
  })

  -- A live server that is below is the best one so far.
  taken :
      (p : ℕ) (rest : List (ℕ × Bool)) (n port r : ℤ)
      → ltz (load_of p b) n ≡ true
      → Found b rest (load_of p b) (client_port p) r
      → Found b ((p, true) ∷ rest) n port r
  taken p rest n port r hit (inl (h, e)) = inr (record {
    before = [];
    server = p;
    behind = rest;
    place = refl;
    is_port = e;
    below = hit;
    less = tt;
    least = h;
  })
  taken p rest n port r hit (inr x) = inr (record {
    before = (p, true) ∷ x.before;
    server = x.server;
    behind = x.behind;
    place = ap (λ l. (p, true) ∷ l) x.place;
    is_port = x.is_port;
    below = ltz_trans (load_of x.server b) (load_of p b) n x.below hit;
    less = (x.below, x.less);
    least = x.least;
  })

  choose_from-Found :
      (status : List (ℕ × Bool)) (port n : ℤ) → Found b status n port (choose_from b status port n)
  unfolding choose_from
  choose_from-Found [] port n = inl (tt, refl)
  choose_from-Found ((p, false) ∷ rest) port n =
      passed p false rest n port (choose_from b rest port n) refl (choose_from-Found rest port n)
  choose_from-Found ((p, true) ∷ rest) port n = elim (Bool-cases (ltz (load_of p b) n)) [
    | inr skip ↦
        coe 1 0
          (i. Found b ((p, true) ∷ rest) n port (
            if skip i
            then choose_from b rest (client_port p) (load_of p b)
            else choose_from b rest port n))
          (passed p true rest n port (choose_from b rest port n) skip
            (choose_from-Found rest port n))
    | inl hit ↦
        coe 1 0
          (i. Found b ((p, true) ∷ rest) n port (
            if hit i
            then choose_from b rest (client_port p) (load_of p b)
            else choose_from b rest port n))
          (taken p rest n port (choose_from b rest (client_port p) (load_of p b)) hit
            (choose_from-Found rest (client_port p) (load_of p b)))
  ]

-- The port that a browser is redirected to is that of the first live frontend server with the least
-- load, if a live one has a load below 666666: each live server before it has a greater load, and
-- no live server behind it has a smaller one. Otherwise it is 10000.
pub choose_port-Found : (b : Balancer) → Found b b.status (pos 666666) (pos 10000) (choose_port b)
unfolding choose_port
choose_port-Found b = choose_from-Found b b.status (pos 10000) (pos 666666)
