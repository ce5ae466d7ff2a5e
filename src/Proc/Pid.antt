-- ===== src/Proc/Pid.antt =====
-- `get_pid`: the pid it returns belongs to no process.
use algorithms_prepare.Prelude.{
  ℕ, zero, suc, ◌+◌, ◌-◌, ◌<◌, ◌≤◌, ◌≡◌, refl, ap, sym, ◌∙◌, inl, inr, true, false, ◌||◌, List, [],
  ◌∷◌, map, length, Option, some, ◌>>=◌, ltb, leb, ◌==◌, arith, Bool-cases,
}
use algorithms_prepare.Sched.{linked, remove}
use algorithms_prepare.Sched.Queue.{length-remove}
use algorithms_prepare.Proc.{max_pid, Walk, walked, repeat, walk, inside, Procs, get_pid}
use algorithms_prepare.Proc.Scan.{distance, Outcome, ended, nearer, walk-Outcome}

-- A search found `last`, which no pid of `qs` is, nor one between it and `next`.
record Found (qs : List ℕ) (o : Option (ℕ × ℕ)) : Type 0 where
  last : ℕ
  next : ℕ
  returned : o ≡ some (last, next)
  positive : 1 ≤ last
  order : last < next
  high : next ≤ max_pid
  clear : (q : ℕ) → linked q qs ≡ true → (ltb q last || leb next q) ≡ true

Found-step :
    (pid : ℕ → ℕ) (ps : List ℕ) (f last fuel : ℕ) (qs : List ℕ) (w : Walk)
    → 1 ≤ last
    → distance f last < suc fuel
    → Outcome f last max_pid qs w
    → ((l : ℕ) → 1 ≤ l → l < max_pid → distance f l < fuel → Found qs (inside fuel pid ps l))
    → Found qs (elim w [ walked l n ↦ some (l, n) | repeat l ↦ inside fuel pid ps l ])
Found-step pid ps f last fuel qs w h d (ended l n low high order clear) go = record {
  last = l;
  next = n;
  returned = refl;
  positive = omega (arith, h, low);
  order = order;
  high = high;
  clear = clear;
}
Found-step pid ps f last fuel qs w h d (nearer l p m k) go = go l p m (omega (arith, d, k))

inside-Found :
    (pid : ℕ → ℕ) (ps : List ℕ) (f last fuel : ℕ)
    → 1 ≤ f
    → f < max_pid
    → linked f (map pid ps) ≡ false
    → 1 ≤ last
    → last < max_pid
    → distance f last < fuel
    → Found (map pid ps) (inside fuel pid ps last)
unfolding inside
inside-Found pid ps f last zero hf hm free h1 h d = absurd (omega (arith, d))
inside-Found pid ps f last (suc fuel) hf hm free h1 h d =
    Found-step pid ps f last fuel (map pid ps) (walk pid ps last max_pid) h1 d
      (walk-Outcome pid ps f last max_pid hf hm free h1 h (omega arith))
      (λ l p m k. inside-Found pid ps f l fuel hf hm free p m k)

remove_other : (i q : ℕ) (qs : List ℕ) → (i == q) ≡ false → linked i (remove q qs) ≡ linked i qs
unfolding linked remove
remove_other i q [] n = refl
remove_other i q (r ∷ qs) n = elim (Bool-cases (q == r)) [
  | inl e ↦ rw e (ground (arith, e, n))
  | inr e ↦ rw e (ap (λ b. i == r || b) (remove_other i q qs n))
]

-- Fewer numbers than there are up to `n` leave one of them out.
pub left_out :
    (n : ℕ) (qs : List ℕ) → length qs < n → (f : ℕ) × (1 ≤ f) × (f ≤ n) × (linked f qs ≡ false)
left_out zero qs h = absurd (omega (arith, h))
left_out (suc n) qs h = elim (Bool-cases (linked (suc n) qs)) [
  | inr e ↦ (suc n, omega arith, omega arith, e)
  | inl e ↦
      let (f, a, b, c) =
        left_out n (remove (suc n) qs) (omega (arith, h, length-remove (suc n) qs e)) in
      (f, a, omega (arith, b), sym (remove_other f (suc n) qs (ground (arith, b))) ∙ c)
]

length-map : (f : ℕ → ℕ) (xs : List ℕ) → length (map f xs) ≡ length xs
length-map f [] = refl
length-map f (x ∷ xs) = ap suc (length-map f xs)

-- The pids of the processes in the list.
abbrev pub pids : Procs → List ℕ
pids s = map s.pid s.proc_list

-- No pid of `qs` lies between `last_pid` and `next_safe`.
abbrev pub IsSafe : ℕ → ℕ → List ℕ → Type 0
IsSafe last next qs = (q : ℕ) → linked q qs ≡ true → (leb q last || leb next q) ≡ true

-- The outcome of `get_pid`.
pub record Fresh (s : Procs) (o : Option (ℕ × Procs)) : Type 0 where
  pub fresh : ℕ
  pub next : ℕ
  pub returned : o ≡ some (fresh, record s { last_pid = fresh; next_safe = next })
  pub unused : linked fresh (pids s) ≡ false
  pub positive : 1 ≤ fresh
  pub bounded : fresh < max_pid
  pub safe : IsSafe fresh next (fresh ∷ pids s)

search-Fresh :
    (s : Procs) (last fuel : ℕ)
    → length s.proc_list < max_pid - 1
    → 1 ≤ last
    → last < max_pid
    → max_pid ≤ fuel
    → Fresh s (
        inside fuel s.pid s.proc_list last >>= λ r.
        some (r.0, record s { last_pid = r.0; next_safe = r.1 }))
unfolding linked
search-Fresh s last fuel h h1 hm hf =
    let (f, a, b, c) =
      left_out (max_pid - 1) (pids s) (omega (arith, h, length-map s.pid s.proc_list)) in
    let r =
      inside-Found s.pid s.proc_list f last fuel a (omega (arith, b)) c h1 hm
        (ground (arith, a, b, h1, hm, hf)) in
    record {
      fresh = r.last;
      next = r.next;
      returned =
          ap (λ o. o >>= λ r. some (r.0, record s { last_pid = r.0; next_safe = r.1 })) r.returned;
      unused = elim (Bool-cases (linked r.last (pids s))) [
        | inl e ↦
            absurd {A = linked r.last (pids s) ≡ false} (ground (arith, r.clear r.last e, r.order))
        | inr e ↦ e
      ];
      positive = r.positive;
      bounded = omega (arith, r.order, r.high);
      safe = λ q m. elim (Bool-cases (q == r.last)) [
        | inl e ↦ ground (arith, e)
        | inr e ↦ ground (arith, r.clear q (ground (arith, m, e)))
      ];
    }

-- With fewer processes than pids, fuel for every pid, and no pid in use from the last one up to the
-- next safe one, `get_pid` ends and returns a pid from 1 below MAX_PID that no process has, and
-- again none is in use from it up to the next safe one.
pub get_pid-Fresh :
    (s : Procs) (fuel : ℕ)
    → length s.proc_list < max_pid - 1
    → IsSafe s.last_pid s.next_safe (pids s)
    → max_pid ≤ fuel
    → Fresh s (get_pid fuel s)
unfolding get_pid linked
get_pid-Fresh s fuel h safe hf =
    let last = s.last_pid + 1 in
    elim (Bool-cases (leb max_pid last)) [
      | inl e ↦ rw e (search-Fresh s 1 fuel h (omega arith) (omega arith) hf)
      | inr e ↦ elim (Bool-cases (leb s.next_safe last)) [
        | inl k ↦ rw (e, k) (search-Fresh s last fuel h (omega arith) (ground (arith, e)) hf)
        | inr k ↦
            rw (e, k)
              record {
                fresh = last;
                next = s.next_safe;
                returned = refl;
                unused = elim (Bool-cases (linked last (pids s))) [
                  | inl m ↦ absurd (ground (arith, safe last m, k))
                  | inr m ↦ m
                ];
                positive = omega arith;
                bounded = ground (arith, e);
                safe = λ q m. elim (Bool-cases (q == last)) [
                  | inl i ↦ ground (arith, i)
                  | inr i ↦ ground (arith, safe q (ground (arith, m, i)))
                ];
              }
      ]
    ]
