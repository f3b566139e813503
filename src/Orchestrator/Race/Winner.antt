-- ===== src/Orchestrator/Race/Winner.antt =====
-- What `pickWinner` (internal/orchestrator/race.go) picks.
use lyrics_plus.Common.{
  ℕ, zero, suc, ◌≤◌, ◌<◌, ◌≡◌, refl, subst, ◌∙◌, false, Option, none, some, List, [], ◌∷◌, String,
  ltb, ◌⊎◌, inl, inr, Bool-cases, get_elem?, arith,
}
use native.Mathlib.Decide.{dec_lt}
use lyrics_plus.Orchestrator.Race.{
  Result, has_lyrics, name_order, scan, first_with_lyrics, earlier, earliest, choose, pick_winner,
}
use lyrics_plus.Orchestrator.Race.Scan.{Among, Arrived, Scanned, scan_all}

earlier-or :
    (names : List String) (w r : Result) → (earlier names w r ≡ w) ⊎ (earlier names w r ≡ r)
unfolding earlier
earlier-or names w r =
    elim (Bool-cases (ltb (name_order names r.source) (name_order names w.source))) [
      | inl e ↦ inr (rw e)
      | inr e ↦ inl (rw e)
    ]

earlier-le :
    (names : List String) (w r : Result)
    → (name_order names (earlier names w r).source ≤ name_order names w.source)
      × (name_order names (earlier names w r).source ≤ name_order names r.source)
unfolding earlier
earlier-le names w r =
    elim (Bool-cases (ltb (name_order names r.source) (name_order names w.source))) [
      | inl e ↦ rw e (ground arith)
      | inr e ↦ rw e (ground arith)
    ]

-- The earliest is one of the candidates, and no candidate's name comes before its name.
earliest-Among :
    (names : List String) (w : Result) (rs : List Result) → Among (earliest names w rs) (w ∷ rs)
unfolding earliest
earliest-Among names w [] = inl refl
earliest-Among names w (r ∷ rs) = elim (earliest-Among names (earlier names w r) rs) [
  | inl e ↦ elim (earlier-or names w r) [ inl f ↦ inl (e ∙ f) | inr f ↦ inr (inl (e ∙ f)) ]
  | inr h ↦ inr (inr h)
]

earliest-le :
    (names : List String) (w : Result) (rs : List Result) (r : Result)
    → Among r (w ∷ rs)
    → name_order names (earliest names w rs).source ≤ name_order names r.source
unfolding earliest
earliest-le names w [] r (inl e) = rw e (omega arith)
earliest-le names w [] r (inr h) = absurd h
earliest-le names w (x ∷ rs) r (inl e) = rw e (
    omega (
      arith,
      earliest-le names (earlier names w x) rs (earlier names w x) (inl refl),
      earlier-le names w x,
    ))
earliest-le names w (x ∷ rs) r (inr (inl e)) = rw e (
    omega (
      arith,
      earliest-le names (earlier names w x) rs (earlier names w x) (inl refl),
      earlier-le names w x,
    ))
earliest-le names w (x ∷ rs) r (inr (inr h)) = earliest-le names (earlier names w x) rs r (inr h)

first_with_lyrics-some :
    (rs : List (Option Result)) (w : Result) → first_with_lyrics rs ≡ some w → Arrived rs w
unfolding first_with_lyrics
first_with_lyrics-some [] w e = absurd (ground arith)
first_with_lyrics-some (none ∷ rs) w e = let (i, f) = first_with_lyrics-some rs w e in (suc i, f)
first_with_lyrics-some (some x ∷ rs) w e = elim (Bool-cases (has_lyrics x)) [
  | inl t ↦ (0, ground arith)
  | inr f ↦ let (i, g) = first_with_lyrics-some rs w (ground arith) in (suc i, g)
]

first_with_lyrics-none :
    (rs : List (Option Result)) (i : ℕ) (r : Result)
    → first_with_lyrics rs ≡ none
    → get_elem? rs i ≡ some (some r)
    → has_lyrics r ≡ false
unfolding first_with_lyrics
first_with_lyrics-none [] i r e a = absurd (ground arith)
first_with_lyrics-none (none ∷ rs) zero r e a = absurd (ground arith)
first_with_lyrics-none (none ∷ rs) (suc i) r e a = first_with_lyrics-none rs i r e a
first_with_lyrics-none (some x ∷ rs) zero r e a = elim (Bool-cases (has_lyrics x)) [
  | inl t ↦ absurd (ground arith)
  | inr f ↦ ground arith
]
first_with_lyrics-none (some x ∷ rs) (suc i) r e a = elim (Bool-cases (has_lyrics x)) [
  | inl t ↦ absurd (ground arith)
  | inr f ↦ first_with_lyrics-none rs i r (ground arith) a
]

-- What is claimed of a winner `w` against a result `r`.
abbrev pub Beats : List String → Result → Result → Type 0
Beats names w r =
    (r.priority ≤ w.priority)
    × ((r.priority < w.priority)
        ⊎ (w.priority ≡ 0)
        ⊎ (name_order names w.source ≤ name_order names r.source))

choose-some :
    (names : List String) (results : List (Option Result)) (s : Option ℕ × List Result)
    (w r : Result)
    → Scanned (Arrived results) s
    → choose names results s ≡ some w
    → Arrived results r
    → Arrived results w × Beats names w r
unfolding choose Scanned
choose-some names results (none, best) w r h e a = absurd (h r a)
choose-some names results (some zero, best) w r h e a =
    let aw = first_with_lyrics-some results w e in
    let z : w.priority ≤ 0 = h.top w aw in (aw, (omega (arith, h.top r a), inr (inl (omega arith))))
choose-some names results (some (suc b), []) w r h e a = absurd (ground arith)
choose-some names results (some (suc b), x ∷ rs) w r h e a =
    let same : earliest names x rs ≡ w = ground arith in
    let m : Among w (x ∷ rs) =
      subst (λ (y : Result). Among y (x ∷ rs)) same (earliest-Among names x rs) in
    let p : w.priority ≡ suc b = h.exact w m in
    (
      h.arrived w m,
      (
        omega (arith, h.top r a),
        elim (dec_lt r.priority (suc b)) [
          | yes lower ↦ inl (omega arith)
          | no equal ↦
              let in_best : Among r (x ∷ rs) = h.complete r a (omega (arith, h.top r a)) in
              inr (
                inr (
                  subst (λ (y : Result). name_order names y.source ≤ name_order names r.source) same
                    (earliest-le names x rs r in_best)))
        ],
      ),
    )

choose-none :
    (names : List String) (results : List (Option Result)) (s : Option ℕ × List Result) (r : Result)
    → Scanned (Arrived results) s
    → choose names results s ≡ none
    → Arrived results r
    → (r.priority ≡ 0) × (has_lyrics r ≡ false)
unfolding choose Scanned
choose-none names results (none, best) r h e a = absurd (h r a)
choose-none names results (some zero, best) r h e a =
    (omega (arith, h.top r a), first_with_lyrics-none results a.0 r e a.1)
choose-none names results (some (suc b), []) r h e a = absurd (h.holds_one refl)
choose-none names results (some (suc b), x ∷ rs) r h e a = absurd (ground arith)

-- The winner is one of the results that arrived; none of them has a higher priority, and of those
-- with the same positive priority none has an earlier name in the order of the sources.
pub pick_winner_best :
    (names : List String) (results : List (Option Result)) (w r : Result)
    → pick_winner results names ≡ some w
    → Arrived results r
    → Arrived results w × Beats names w r
unfolding pick_winner
pick_winner_best names results w r e a =
    choose-some names results (scan none [] results) w r (scan_all results) e a

-- There is no winner only when every result that arrived is of priority 0 and without lyrics.
pub pick_winner-none :
    (names : List String) (results : List (Option Result)) (r : Result)
    → pick_winner results names ≡ none
    → Arrived results r
    → (r.priority ≡ 0) × (has_lyrics r ≡ false)
unfolding pick_winner
pick_winner-none names results r e a =
    choose-none names results (scan none [] results) r (scan_all results) e a
