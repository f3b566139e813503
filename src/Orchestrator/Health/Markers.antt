-- ===== src/Orchestrator/Health/Markers.antt =====
-- The words that speak against a provider (internal/orchestrator/breaker.go, `healthMarkers`).
use lyrics_plus.Common.{
  ◌≡◌, refl, ap, Bool, true, false, ◌||◌, some, List, [], ◌∷◌, ◌++◌, ◌⊎◌, inl, inr, if◌then◌else◌,
  arith,
}
use lyrics_plus.Common.Text.{Text, contains, contains-append, to_lower, lower_rune}
use lyrics_plus.Orchestrator.Health.{
  FetchError, health_status_match, health_markers, any_marker, is_health_failure,
}

-- A text is one of a list.
abbrev pub Listed : Text → List Text → Type 0
Listed m [] = ⊥
Listed m (x ∷ xs) = (x ≡ m) ⊎ Listed m xs

to_lower-append : (s t : Text) → to_lower (s ++ t) ≡ to_lower s ++ to_lower t
unfolding to_lower
to_lower-append [] t = refl
to_lower-append (c ∷ s) t = ap (◌∷◌ (lower_rune c)) (to_lower-append s t)

any_marker-Listed :
    (ms : List Text) (m msg : Text) → Listed m ms → contains msg m ≡ true → any_marker ms msg ≡ true
unfolding any_marker
any_marker-Listed [] m msg h e = absurd h
any_marker-Listed (x ∷ ms) m msg (inl same) e = rw (same, e) refl
any_marker-Listed (x ∷ ms) m msg (inr later) e =
    rw (any_marker-Listed ms m msg later e) (ground arith)

lowered :
    (before word after : Text)
    → to_lower (before ++ (word ++ after)) ≡ to_lower before ++ (to_lower word ++ to_lower after)
lowered before word after =
    rw (to_lower-append before (word ++ after), to_lower-append word after) refl

-- The tests of `IsHealthFailure` in their order.
marked :
    (canceled deadline net code word : Bool)
    → canceled ≡ false
    → word ≡ true
    → (if canceled then false else if deadline then true else if net then true else code || word)
      ≡ true
marked canceled deadline net code word h k = ground arith

-- An error that is no cancellation counts against its provider as soon as one of the marker words
-- stands anywhere in its message, in letters of any case.
pub is_health_failure-marker :
    (e : FetchError) (before word after : Text)
    → e.is_canceled ≡ false
    → e.message ≡ before ++ (word ++ after)
    → Listed (to_lower word) health_markers
    → is_health_failure (some e) ≡ true
unfolding is_health_failure
is_health_failure-marker e before word after live said marker =
    let found : contains (to_lower e.message) (to_lower word) ≡ true =
      rw (said, lowered before word after)
        (contains-append (to_lower before) (to_lower word) (to_lower after)) in
    let hit = any_marker-Listed health_markers (to_lower word) (to_lower e.message) marker found in
    marked e.is_canceled e.is_deadline_exceeded e.is_net (health_status_match (to_lower e.message))
      _ live hit
