-- ===== src/Orchestrator/Race/Scan.antt =====
-- The first loop of `pickWinner` (internal/orchestrator/race.go): it leaves the results of the best
-- priority.
use lyrics_plus.Common.{
  ℕ, zero, suc, ◌≤◌, ◌<◌, ◌≡◌, ap, ◌≢◌, ltb→lt, ◌∙◌, ◌↔◌, false, Option, none, some, List, [], ◌∷◌,
  ◌++◌, ltb, ◌==◌, ◌⊎◌, inl, inr, if◌then◌else◌, Bool-cases, get_elem?, arith,
}
use lyrics_plus.Orchestrator.Race.{Result, scan}

-- The result `r` has arrived.
abbrev pub Arrived : List (Option Result) → Result → Type 0
Arrived results r = (i : ℕ) × (get_elem? results i ≡ some (some r))

abbrev pub Among : Result → List Result → Type 0
Among r [] = ⊥
Among r (x ∷ xs) = (r ≡ x) ⊎ Among r xs

Among-append : (r : Result) (xs ys : List Result) → Among r xs ⊎ Among r ys → Among r (xs ++ ys)
Among-append r [] ys (inr h) = h
Among-append r (x ∷ xs) ys (inl (inl h)) = inl h
Among-append r (x ∷ xs) ys (inl (inr h)) = inr (Among-append r xs ys (inl h))
Among-append r (x ∷ xs) ys (inr h) = inr (Among-append r xs ys (inr h))
Among-append r [] ys (inl h) = absurd h

Among-split : (r : Result) (xs ys : List Result) → Among r (xs ++ ys) → Among r xs ⊎ Among r ys
Among-split r [] ys h = inr h
Among-split r (x ∷ xs) ys (inl h) = inl (inl h)
Among-split r (x ∷ xs) ys (inr h) = elim (Among-split r xs ys h) [
  | inl m ↦ inl (inr m)
  | inr m ↦ inr m
]

none-some : {r : Result} → ◌≡◌ {A = Option (Option Result)} none (some (some r)) → ⊥
none-some h = cc

-- What the first loop has, over the results that arrived: the best priority `b`, and a list that
-- holds results of that priority alone, all of them, each one arrived.
pub record IsBest (P : Result → Type 0) (b : ℕ) (best : List Result) : Type 0 where
  pub top : (r : Result) → P r → r.priority ≤ b
  pub complete : (r : Result) → P r → r.priority ≡ b → Among r best
  pub exact : (r : Result) → Among r best → r.priority ≡ b
  pub arrived : (r : Result) → Among r best → P r
  pub holds_one : best ≢ []

-- The results seen before, and those to come.
abbrev Both : (Result → Type 0) → List (Option Result) → Result → Type 0
Both P rs r = P r ⊎ Arrived rs r

unfoldable pub Scanned : (Result → Type 0) → Option ℕ × List Result → Type 0
Scanned P (none, best) = (r : Result) → ¬ P r
Scanned P (some b, best) = IsBest P b best

IsBest-cong :
    (P Q : Result → Type 0) (b : ℕ) (best : List Result)
    → ((r : Result) → P r ↔ Q r)
    → IsBest P b best
    → IsBest Q b best
IsBest-cong P Q b best e h = record {
  top = λ r q. h.top r ((e r).1 q);
  complete = λ r q. h.complete r ((e r).1 q);
  exact = h.exact;
  arrived = λ r a. (e r).0 (h.arrived r a);
  holds_one = h.holds_one;
}

-- The set of results with one more.
abbrev And : (Result → Type 0) → Result → Result → Type 0
And P x r = P r ⊎ (r ≡ x)

same_priority : (r x : Result) → r ≡ x → r.priority ≡ x.priority
same_priority r x e = ap (λ (y : Result). y.priority) e

append_holds : (xs : List Result) (x : Result) → xs ++ (x ∷ []) ≢ []
append_holds [] x e = cc
append_holds (y ∷ xs) x e = cc

-- One result alone, where every other one is lower.
single-IsBest :
    (P : Result → Type 0) (x : Result)
    → ((r : Result) → P r → r.priority < x.priority)
    → IsBest (And P x) x.priority (x ∷ [])
single-IsBest P x lower = record {
  top = λ r. elim [ inl p ↦ omega (arith, lower r p) | inr e ↦ omega (arith, same_priority r x e) ];
  complete = λ r. elim [ inl p ↦ λ e. absurd (omega (arith, lower r p)) | inr e ↦ λ _. inl e ];
  exact = λ r. elim [ inl e ↦ same_priority r x e | inr h ↦ absurd h ];
  arrived = λ r. elim [ inl e ↦ inr e | inr h ↦ absurd h ];
  holds_one = λ e. cc;
}

equal-IsBest :
    (P : Result → Type 0) (b : ℕ) (best : List Result) (x : Result)
    → IsBest P b best
    → x.priority ≡ b
    → IsBest (And P x) b (best ++ (x ∷ []))
equal-IsBest P b best x h eq = record {
  top = λ r. elim [ inl p ↦ h.top r p | inr e ↦ omega (arith, same_priority r x e) ];
  complete = λ r. elim [
    | inl p ↦ λ e. Among-append r best (x ∷ []) (inl (h.complete r p e))
    | inr e ↦ λ _. Among-append r best (x ∷ []) (inr (inl e))
  ];
  exact = λ r a. elim (Among-split r best (x ∷ []) a) [
    | inl m ↦ h.exact r m
    | inr m ↦ elim m [ inl e ↦ same_priority r x e ∙ eq | inr f ↦ absurd f ]
  ];
  arrived = λ r a. elim (Among-split r best (x ∷ []) a) [
    | inl m ↦ inl (h.arrived r m)
    | inr m ↦ elim m [ inl e ↦ inr e | inr f ↦ absurd f ]
  ];
  holds_one = append_holds best x;
}

lower-IsBest :
    (P : Result → Type 0) (b : ℕ) (best : List Result) (x : Result)
    → IsBest P b best
    → x.priority < b
    → IsBest (And P x) b best
lower-IsBest P b best x h lt = record {
  top = λ r. elim [ inl p ↦ h.top r p | inr e ↦ omega (arith, same_priority r x e) ];
  complete = λ r. elim [
    | inl p ↦ h.complete r p
    | inr e ↦ λ f. absurd (omega (arith, same_priority r x e))
  ];
  exact = h.exact;
  arrived = λ r a. inl (h.arrived r a);
  holds_one = h.holds_one;
}

keep-IsBest :
    (P : Result → Type 0) (b : ℕ) (best : List Result) (x : Result)
    → IsBest P b best
    → ltb b x.priority ≡ false
    → IsBest (And P x) b (if x.priority == b then best ++ (x ∷ []) else best)
keep-IsBest P b best x h le = elim (Bool-cases (x.priority == b)) [
  | inl e ↦ rw e (equal-IsBest P b best x h (ground arith))
  | inr e ↦ rw e (lower-IsBest P b best x h (ground arith))
]

Arrived-cons_none : (rs : List (Option Result)) (r : Result) → Arrived (none ∷ rs) r ↔ Arrived rs r
Arrived-cons_none rs r = (shift, λ a. (suc a.0, a.1))
  where
    shift : Arrived (none ∷ rs) r → Arrived rs r
    shift (zero, e) = absurd (ground arith)
    shift (suc i, e) = (i, e)

Both-nil : (P : Result → Type 0) (r : Result) → P r ↔ Both P [] r
Both-nil P r = (inl, elim [ inl p ↦ p | inr a ↦ absurd (none-some a.1) ])

Both-none :
    (P : Result → Type 0) (rs : List (Option Result)) (r : Result)
    → Both P rs r ↔ Both P (none ∷ rs) r
Both-none P rs r = (
  elim [ inl p ↦ inl p | inr a ↦ inr ((Arrived-cons_none rs r).1 a) ],
  elim [ inl p ↦ inl p | inr a ↦ inr ((Arrived-cons_none rs r).0 a) ],
)

Both-some :
    (P : Result → Type 0) (x : Result) (rs : List (Option Result)) (r : Result)
    → Both (And P x) rs r ↔ Both P (some x ∷ rs) r
Both-some P x rs r = (to, from)
  where
    to : Both (And P x) rs r → Both P (some x ∷ rs) r
    to (inl (inl p)) = inl p
    to (inl (inr e)) = inr (0, rw e)
    to (inr (i, e)) = inr (suc i, e)

    from : Both P (some x ∷ rs) r → Both (And P x) rs r
    from (inl p) = inl (inl p)
    from (inr (zero, e)) = inl (inr (ground arith))
    from (inr (suc i, e)) = inr (i, e)

Scanned-cong :
    (P Q : Result → Type 0) (s : Option ℕ × List Result)
    → ((r : Result) → P r ↔ Q r)
    → Scanned P s
    → Scanned Q s
unfolding Scanned
Scanned-cong P Q (none, best) e h = λ r q. h r ((e r).1 q)
Scanned-cong P Q (some b, best) e h = IsBest-cong P Q b best e h

scan-Scanned :
    (P : Result → Type 0) (top : Option ℕ) (best : List Result) (rs : List (Option Result))
    → Scanned P (top, best)
    → Scanned (Both P rs) (scan top best rs)
unfolding scan Scanned
scan-Scanned P none best [] h = Scanned-cong P (Both P []) (none, best) (Both-nil P) h
scan-Scanned P (some b) best [] h = Scanned-cong P (Both P []) (some b, best) (Both-nil P) h
scan-Scanned P none best (none ∷ rs) h =
    Scanned-cong _ _ (scan none best rs) (Both-none P rs) (scan-Scanned P none best rs h)
scan-Scanned P (some b) best (none ∷ rs) h =
    Scanned-cong _ _ (scan (some b) best rs) (Both-none P rs) (scan-Scanned P (some b) best rs h)
scan-Scanned P none best (some x ∷ rs) h =
    Scanned-cong _ _ (scan (some x.priority) (x ∷ []) rs) (Both-some P x rs) (
      scan-Scanned (And P x) (some x.priority) (x ∷ []) rs
        (single-IsBest P x (λ r p. absurd (h r p))))
scan-Scanned P (some b) best (some x ∷ rs) h = elim (Bool-cases (ltb b x.priority)) [
  | inl e ↦
      rw (e, scan)
        (Scanned-cong _ _ (scan (some x.priority) (x ∷ []) rs) (Both-some P x rs) (
          scan-Scanned (And P x) (some x.priority) (x ∷ []) rs
            (single-IsBest P x (λ r p. omega (arith, h.top r p, ltb→lt _ _ e)))))
  | inr e ↦
      rw (e, scan)
        (Scanned-cong _ _ (scan (some b) _ rs) (Both-some P x rs)
          (scan-Scanned (And P x) (some b) _ rs (keep-IsBest P b best x h e)))
]

pub scan_all : (results : List (Option Result)) → Scanned (Arrived results) (scan none [] results)
scan_all results =
    Scanned-cong _ _ (scan none [] results) (λ r. (elim [ inl f ↦ absurd f | inr a ↦ a ], inr))
      (scan-Scanned (λ r. ⊥) none [] results (unfold Scanned in λ r f. f))
