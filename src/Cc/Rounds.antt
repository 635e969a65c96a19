-- ===== src/Cc/Rounds.antt =====
-- cc_poll (tas_nic/slow/cc.c) goes round its list of connections.
use mathlib.Core.List.{append_assoc}
use tas_smartnic.Prelude.{
  All-append, ℕ, zero, suc, ◌+◌, ◌≡◌, ◌≢◌, ◌⊎◌, refl, ◌∙◌, subst, inl, inr, ◌&&◌, not, Bool, true,
  false, Option, none, some, List, [], ◌∷◌, ◌++◌, arith, ◌==◌, min, length, All, Apart, Distinct,
  Distinct-Apart, Option-cases, ==-same,
}
use tas_smartnic.Cc.State.{Config, Stats}
use tas_smartnic.Cc.Control.{
  first_conn, State, cc_next, following, finished, visit, poll_loop, cc_poll,
}

pub take {ℓ} : {A : Type ℓ} → ℕ → List A → List A
take zero xs = []
take (suc n) [] = []
take (suc n) (x ∷ xs) = x ∷ take n xs

-- The element that `n` steps from the first lead to, and `wrap` from the last one.
unfoldable pub ahead : ℕ → ℕ → List ℕ → ℕ → ℕ
ahead zero x xs wrap = x
ahead (suc n) x [] wrap = wrap
ahead (suc n) x (y ∷ ys) wrap = ahead n y ys wrap

-- From each of `x ∷ xs` the next one follows, and `wrap` from the last one.
Links : List ℕ → ℕ → List ℕ → ℕ → Type 0
Links conns x [] wrap = following conns x ≡ wrap
Links conns x (y ∷ ys) wrap = (following conns x ≡ y) × Links conns y ys wrap

pub next_inside :
    (xs : List ℕ) (x y : ℕ) (ys : List ℕ) → Apart x xs → cc_next (xs ++ x ∷ y ∷ ys) x ≡ some y
unfolding cc_next Apart
next_inside [] x y ys apart = rw (==-same x) refl
next_inside (z ∷ []) x y ys (other, rest) =
    let differs : (z == x) ≡ false = ground arith in rw (differs, ==-same x) refl
next_inside (z ∷ w ∷ xs) x y ys (other, rest) =
    let differs : (z == x) ≡ false = ground arith in rw differs (next_inside (w ∷ xs) x y ys rest)

pub next_last : (xs : List ℕ) (x : ℕ) → Apart x xs → cc_next (xs ++ x ∷ []) x ≡ none
unfolding cc_next Apart
next_last [] x apart = refl
next_last (z ∷ []) x (other, rest) =
    let differs : (z == x) ≡ false = ground arith in rw differs refl
next_last (z ∷ w ∷ xs) x (other, rest) =
    let differs : (z == x) ≡ false = ground arith in rw differs (next_last (w ∷ xs) x rest)

-- Inside a list without repetitions, up to an element of it.
Links-inner :
    (conns xs : List ℕ) (x : ℕ) (ys : List ℕ) (wrap : ℕ) (zs : List ℕ)
    → Distinct conns
    → conns ≡ xs ++ x ∷ (ys ++ wrap ∷ zs)
    → Links conns x ys wrap
unfolding Links following
Links-inner conns xs x [] wrap zs once e =
    let apart : Apart x xs = (Distinct-Apart xs x (wrap ∷ zs) (subst Distinct e once)).0 in
    let next : cc_next conns x ≡ some wrap = rw e (next_inside xs x wrap zs apart) in
    rw (following, next) refl
Links-inner conns xs x (y ∷ ys) wrap zs once e =
    let apart = (Distinct-Apart xs x (y ∷ (ys ++ wrap ∷ zs)) (subst Distinct e once)).0 in
    let next : cc_next conns x ≡ some y = rw e (next_inside xs x y (ys ++ wrap ∷ zs) apart) in
    let moved : conns ≡ (xs ++ x ∷ []) ++ y ∷ (ys ++ wrap ∷ zs) = simp (e, append_assoc) in
    (rw (following, next) refl, Links-inner conns (xs ++ x ∷ []) y ys wrap zs once moved)

-- Round the end of the list: from `x` to the last element, and from the first to `c`.
Links-around :
    (conns xs : List ℕ) (x : ℕ) (ys pre : List ℕ) (c : ℕ) (post : List ℕ)
    → Distinct conns
    → conns ≡ xs ++ x ∷ ys
    → conns ≡ pre ++ c ∷ post
    → Links conns x (ys ++ pre) c
unfolding Links following
Links-around conns xs x [] [] c post once e start =
    let apart = (Distinct-Apart xs x [] (subst Distinct e once)).0 in
    let next : cc_next conns x ≡ none = rw e (next_last xs x apart) in
    rw (following, next, start) refl
Links-around conns xs x [] (p ∷ pre) c post once e start =
    let apart = (Distinct-Apart xs x [] (subst Distinct e once)).0 in
    let next : cc_next conns x ≡ none = rw e (next_last xs x apart) in
    (rw (following, next, start) refl, Links-inner conns [] p pre c post once start)
Links-around conns xs x (y ∷ ys) pre c post once e start =
    let apart = (Distinct-Apart xs x (y ∷ ys) (subst Distinct e once)).0 in
    let next : cc_next conns x ≡ some y = rw e (next_inside xs x y ys apart) in
    let moved : conns ≡ (xs ++ x ∷ []) ++ y ∷ ys = simp (e, append_assoc) in
    (rw (following, next) refl, Links-around conns (xs ++ x ∷ []) y ys pre c post once moved start)

Apart-All : (c : ℕ) (xs : List ℕ) → Apart c xs → All (λ x. x ≢ c) xs
unfolding Apart
Apart-All c [] apart = tt
Apart-All c (x ∷ xs) (other, apart) = (other, Apart-All c xs apart)

module _ (config : Config) (stats : ℕ → Option Stats)
    (resend : (flow_id flow_group : ℕ) → Bool) where
  -- One round for each connection of a list.
  pub visit_all : List ℕ → State → (cur_ts : ℕ) → Option State
  visit_all [] s cur_ts = some s
  visit_all (c ∷ cs) s cur_ts = elim (visit config stats resend s c cur_ts) [
    | none ↦ none
    | some t ↦ visit_all cs t cur_ts
  ]

  -- The list of connections stays as it is.
  pub visit-conns :
      (s t : State) (id cur_ts : ℕ)
      → visit config stats resend s id cur_ts ≡ some t
      → t.conns ≡ s.conns
  unfolding visit finished
  visit-conns s t id cur_ts e = ground arith

  pub visit_all-conns :
      (cs : List ℕ) (s t : State) (cur_ts : ℕ) → visit_all cs s cur_ts ≡ some t → t.conns ≡ s.conns
  unfolding visit_all
  visit_all-conns [] s t cur_ts e = cc
  visit_all-conns (c ∷ cs) s t cur_ts e =
      elim (Option-cases (visit config stats resend s c cur_ts)) [
        | inl v ↦ absurd cc (rw (visit_all, v) at e)
        | inr (u, v) ↦
            visit_all-conns cs u t cur_ts (rw (visit_all, v) at e) ∙ visit-conns s u c cur_ts v
      ]

  visit_all-some :
      (c : ℕ) (cs : List ℕ) (s t : State) (cur_ts : ℕ)
      → visit config stats resend s c cur_ts ≡ some t
      → visit_all (c ∷ cs) s cur_ts ≡ visit_all cs t cur_ts
  unfolding visit_all
  visit_all-some c cs s t cur_ts e = rw (visit_all, e) refl

  visit_all-none :
      (c : ℕ) (cs : List ℕ) (s : State) (cur_ts : ℕ)
      → visit config stats resend s c cur_ts ≡ none
      → visit_all (c ∷ cs) s cur_ts ≡ none
  unfolding visit_all
  visit_all-none c cs s cur_ts e = rw (visit_all, e) refl

  -- What the loop returns after visiting `c ∷ r`.
  abbrev visited : Option State → (n d : ℕ) → Option (State × ℕ × ℕ)
  visited none n d = none
  visited (some t) n d = some (t, n, d)

  loop_ends :
      (rounds n : ℕ) (t : State) (c cur_ts : ℕ)
      → poll_loop config stats resend rounds (suc n) t c c cur_ts ≡ some (t, suc n, c)
  unfolding poll_loop
  loop_ends zero n t c cur_ts = refl
  loop_ends (suc rounds) n t c cur_ts =
      let back : (not (suc n == 0) && c == c) ≡ true = ground arith in rw back refl

  nothing_left :
      (rounds : ℕ) (t : State) (cur_ts : ℕ) → visit_all (take rounds []) t cur_ts ≡ some t
  unfolding visit_all take
  nothing_left zero t cur_ts = refl
  nothing_left (suc rounds) t cur_ts = refl

  round-visited :
      (rounds n : ℕ) (s : State) (c : ℕ) (r : List ℕ) (c_first cur_ts : ℕ) (conns : List ℕ)
      → s.conns ≡ conns
      → Links conns c r c_first
      → All (λ x. x ≢ c_first) r
      → (not (n == 0) && c == c_first) ≡ false
      → poll_loop config stats resend rounds n s c c_first cur_ts
        ≡ visited
            (visit_all (take rounds (c ∷ r)) s cur_ts)
            (n + min rounds (length (c ∷ r)))
            (ahead rounds c r c_first)
  unfolding poll_loop take ahead Links
  round-visited zero n s c r c_first cur_ts conns same links other go =
      let z : n + min 0 (length (c ∷ r)) ≡ n = omega arith in rw (nothing_left 0 s cur_ts, z) refl
  round-visited (suc rounds) n s c [] c_first cur_ts conns same links other go =
      elim (Option-cases (visit config stats resend s c cur_ts)) [
        | inl e ↦ rw (go, e, visit_all-none c (take rounds []) s cur_ts e) refl
        | inr (t, e) ↦
            let kept : t.conns ≡ conns = visit-conns s t c cur_ts e ∙ same in
            let next : following t.conns c ≡ c_first = rw kept links in
            rw
              (
                go,
                e,
                next,
                visit_all-some c (take rounds []) s t cur_ts e,
                loop_ends rounds n t c_first cur_ts,
                nothing_left rounds t cur_ts,
              )
              (let one : n + min (suc rounds) 1 ≡ suc n = omega arith in rw one refl)
      ]
  round-visited (suc rounds) n s c (y ∷ r) c_first cur_ts conns same (link, links) (ne, other) go =
      elim (Option-cases (visit config stats resend s c cur_ts)) [
        | inl e ↦ rw (go, e, visit_all-none c (take rounds (y ∷ r)) s cur_ts e) refl
        | inr (t, e) ↦
            let kept : t.conns ≡ conns = visit-conns s t c cur_ts e ∙ same in
            let next : following t.conns c ≡ y = rw kept link in
            let on : (not (suc n == 0) && y == c_first) ≡ false = ground arith in
            let sum : suc n + min rounds (suc (length r))
                ≡ n + min (suc rounds) (suc (suc (length r))) =
              omega arith in
            rw
              (
                go,
                e,
                next,
                visit_all-some c (take rounds (y ∷ r)) s t cur_ts e,
                round-visited rounds (suc n) t y r c_first cur_ts conns kept links other on,
              )
              (rw sum refl)
      ]

  -- The result of a poll that came to `d` after `n` rounds.
  abbrev pub came_to : Option State → (n d cur_ts : ℕ) → Option (State × ℕ)
  came_to none n d cur_ts = none
  came_to (some t) n d cur_ts = some (record t { next_conn = some d; last_ts = cur_ts }, n)

  first_conn-some :
      (next_conn : Option ℕ) (conns pre : List ℕ) (c : ℕ) (post : List ℕ)
      → conns ≡ pre ++ c ∷ post
      → (next_conn ≡ some c) ⊎ ((next_conn ≡ none) × (pre ≡ []))
      → first_conn next_conn conns ≡ some c
  unfolding first_conn
  first_conn-some next_conn conns pre c post e (inl next) = rw next refl
  first_conn-some next_conn conns pre c post e (inr (begin, empty)) = rw (begin, e, empty) refl

  -- cc_poll makes a round for each connection of its list, once, in the order of the list, from the one
  -- at which the last poll stopped to the end and on from the first; after 128 it stops, and the next
  -- poll begins with the one it has come to.
  pub cc_poll_lem :
      (s : State) (cur_ts : ℕ) (pre : List ℕ) (c : ℕ) (post : List ℕ)
      → Distinct s.conns
      → s.conns ≡ pre ++ c ∷ post
      → (s.next_conn ≡ some c) ⊎ ((s.next_conn ≡ none) × (pre ≡ []))
      → let round = post ++ pre in
        cc_poll config stats resend s cur_ts
        ≡ came_to
            (visit_all (take 128 (c ∷ round)) s cur_ts)
            (min 128 (length (c ∷ round)))
            (ahead 128 c round c)
            cur_ts
  unfolding cc_poll
  cc_poll_lem s cur_ts pre c post once e from =
      let start : first_conn s.next_conn s.conns ≡ some c =
        first_conn-some s.next_conn s.conns pre c post e from in
      let links : Links s.conns c (post ++ pre) c =
        Links-around s.conns pre c post pre c post once e e in
      let others : All (λ x. x ≢ c) (post ++ pre) =
        let (before, behind) = Distinct-Apart pre c post (subst Distinct e once) in
        All-append (λ x. x ≢ c) post pre (Apart-All c post behind) (Apart-All c pre before) in
      let loop : poll_loop config stats resend 128 0 s c c cur_ts ≡ _ =
        round-visited 128 0 s c (post ++ pre) c cur_ts s.conns refl links others refl in
      let sum : 0 + min 128 (length (c ∷ (post ++ pre))) ≡ min 128 (length (c ∷ (post ++ pre))) =
        omega arith in
      elim (Option-cases (visit_all (take 128 (c ∷ (post ++ pre))) s cur_ts)) [
        | inl v ↦ rw (cc_poll, start, loop, v) refl
        | inr (t, v) ↦ rw (cc_poll, start, loop, v, sum) refl
      ]
