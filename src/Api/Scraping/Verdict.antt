-- ===== src/Api/Scraping/Verdict.antt =====
-- Which requests go on, and which only to the caches (internal/api/middleware/external_scraping.go).
use lyrics_plus.Common.{
  ◌≡◌, refl, sym, subst, ◌∙◌, ap, inl, inr, Bool, true, false, not, ◌&&◌, ◌||◌, Option, none, some,
  List, [], ◌∷◌, if◌then◌else◌, Bool-cases, All, arith,
}
use lyrics_plus.Common.Text.{Text, codes, text_eq, text_eq_iff, trim_space}
use lyrics_plus.Domain.Query.{is_empty}
use lyrics_plus.Api.Client.{Request, is_health_path}
use lyrics_plus.Api.Limit.{Reading}
use lyrics_plus.Api.Scraping.{Matching, CompiledRule, any, Visit, rule_matches}
use lyrics_plus.Api.Scraping.Engine.{
  ExternalScrapingEngine, Outcome, goes_on, forbidden, blocked, throttled, is_block, is_throttle,
  is_cached_only, block_reply, take_turn, throttle_reply, cached_reply, apply_rule, stops, flag_of,
  evaluate, visit_of, lists_match, scrape,
}

abbrev going : Outcome → Option Bool
going (goes_on cache_only) = some cache_only
going (forbidden message) = none
going (blocked status message) = none
going (throttled remaining message) = none

going-stops : (o : Outcome) (f : Bool) → going o ≡ some f → stops o ≡ false
going-stops (goes_on c) f h = refl
going-stops (forbidden m) f h = absurd (grind arith)
going-stops (blocked s m) f h = absurd (grind arith)
going-stops (throttled s m) f h = absurd (grind arith)

stops-going : (o : Outcome) (c : Bool) → stops o ≡ false → going o ≡ some (flag_of o c)
stops-going (goes_on f) c h = refl
stops-going (forbidden m) c h = absurd (grind arith)
stops-going (blocked s m) c h = absurd (grind arith)
stops-going (throttled s m) c h = absurd (grind arith)

cached_only-throttle : (a : Text) → is_cached_only a ≡ true → is_throttle a ≡ false
unfolding text_eq
cached_only-throttle a h = elim (Bool-cases (text_eq a (codes "cached_only"))) [
  | inl one ↦
      subst (λ x. is_throttle x ≡ false) (sym ((text_eq_iff a (codes "cached_only")).0 one)) refl
  | inr other ↦
      subst (λ x. is_throttle x ≡ false)
        (sym ((text_eq_iff a (codes "cache_only")).0 (ground arith))) refl
]

some_flag : (a b : Bool) → some a ≡ some b → b ≡ a
some_flag a b h = grind arith

or_false : (c : Bool) → c ≡ (c || false)
or_false true = refl
or_false false = refl

or_true : (c : Bool) → true ≡ (c || true)
or_true true = refl
or_true false = refl

decide_rule :
    (block throttle cached cache_only f : Bool) (r r' : CompiledRule) (wait : Option Text)
    → (cached ≡ true → throttle ≡ false)
    → (let out : CompiledRule × Outcome =
          if block
          then (r, block_reply r)
          else if throttle
          then (
            r',
            elim wait [ none ↦ goes_on cache_only | some remaining ↦ throttle_reply r remaining ],
          )
          else if cached
          then (r', elim wait [ none ↦ goes_on true | some remaining ↦ cached_reply remaining ])
          else (r, goes_on cache_only) in
        going out.1 ≡ some f)
    → (block ≡ false) × (f ≡ (cache_only || cached))
unfolding block_reply throttle_reply cached_reply
decide_rule true throttle cached cache_only f r r' wait apart h = absurd (grind arith)
decide_rule false true true cache_only f r r' wait apart h = absurd (ground (arith, apart refl))
decide_rule false true false cache_only f r r' none apart h =
    (refl, some_flag cache_only f h ∙ or_false cache_only)
decide_rule false true false cache_only f r r' (some w) apart h = absurd (grind arith)
decide_rule false false true cache_only f r r' none apart h =
    (refl, some_flag true f h ∙ or_true cache_only)
decide_rule false false true cache_only f r r' (some w) apart h = absurd (grind arith)
decide_rule false false false cache_only f r r' wait apart h =
    (refl, some_flag cache_only f h ∙ or_false cache_only)

apply_rule-goes_on :
    (r : CompiledRule) (client : Text) (now : Reading) (cache_only f : Bool)
    → going (apply_rule r client now cache_only).1 ≡ some f
    → (is_block r.action ≡ false) × (f ≡ (cache_only || is_cached_only r.action))
unfolding apply_rule
apply_rule-goes_on r client now cache_only f h =
    let (r', wait) = take_turn r client now in
    decide_rule (is_block r.action) (is_throttle r.action) (is_cached_only r.action) cache_only f r
      r' wait (cached_only-throttle r.action) h

-- A rule that matches the visit does not block.
abbrev pub spares : Matching → Visit → CompiledRule → Bool
spares x v r = not (rule_matches x v r && is_block r.action)

abbrev pub sends_to_cache : Matching → Visit → CompiledRule → Bool
sends_to_cache x v r = rule_matches x v r && is_cached_only r.action

or_assoc : (a b c : Bool) → ((a || b) || c) ≡ (a || (b || c))
or_assoc true b c = refl
or_assoc false b c = refl

-- One rule of the loop, whether it matches, and the rest of the loop after it.
decide_step :
    (matches block cached cache_only f : Bool) (rest : Bool → Option Bool) (Spared : Type 0)
    (others : Bool) (outcome : Outcome)
    → ((g : Bool) → going outcome ≡ some g → (block ≡ false) × (g ≡ (cache_only || cached)))
    → ((c : Bool) → rest c ≡ some f → Spared × (f ≡ (c || others)))
    → (if matches
        then if stops outcome then going outcome else rest (flag_of outcome cache_only)
        else rest cache_only)
      ≡ some f
    → (not (matches && block) ≡ true)
      × (Spared × (f ≡ (cache_only || ((matches && cached) || others))))
decide_step false block cached cache_only f rest Spared others outcome one more h =
    (refl, more cache_only h)
decide_step true block cached cache_only f rest Spared others outcome one more h =
    elim (Bool-cases (stops outcome)) [
      | inl stopped ↦
          let same : going outcome ≡ some f =
            subst (λ b. (if b then going outcome else rest (flag_of outcome cache_only)) ≡ some f)
              stopped h in
          absurd (grind (arith, going-stops outcome f same))
      | inr goes ↦
          let next : rest (flag_of outcome cache_only) ≡ some f =
            subst (λ b. (if b then going outcome else rest (flag_of outcome cache_only)) ≡ some f)
              goes h in
          let (free, flag) =
            one (flag_of outcome cache_only) (stops-going outcome cache_only goes) in
          let (spared, all) = more (flag_of outcome cache_only) next in
          (
            rw free refl,
            (spared, all ∙ (ap (λ g. g || others) flag ∙ or_assoc cache_only cached others)),
          )
    ]

going-if :
    (matches halt : Bool) (rs1 rs2 rs3 : List CompiledRule) (o1 o2 o3 : Outcome)
    → (let out : List CompiledRule × Outcome =
          if matches then if halt then (rs1, o1) else (rs2, o2) else (rs3, o3) in
        going out.1 ≡ (if matches then if halt then going o1 else going o2 else going o3))
going-if true true rs1 rs2 rs3 o1 o2 o3 = refl
going-if true false rs1 rs2 rs3 o1 o2 o3 = refl
going-if false halt rs1 rs2 rs3 o1 o2 o3 = refl

evaluate-goes_on :
    (x : Matching) (v : Visit) (now : Reading) (rules : List CompiledRule) (cache_only f : Bool)
    → going (evaluate x v now rules cache_only).1 ≡ some f
    → All (λ (r : CompiledRule). spares x v r ≡ true) rules
      × (f ≡ (cache_only || any (sends_to_cache x v) rules))
unfolding evaluate
evaluate-goes_on x v now [] cache_only f h = (tt, some_flag cache_only f h ∙ or_false cache_only)
evaluate-goes_on x v now (r ∷ rules) cache_only f h =
    let (r', outcome) = apply_rule r v.client now cache_only in
    let skipped = evaluate x v now rules cache_only in
    let applied = evaluate x v now rules (flag_of outcome cache_only) in
    let step =
      going-if (rule_matches x v r) (stops outcome) (r' ∷ rules) (r' ∷ applied.0) (r ∷ skipped.0)
        outcome applied.1 skipped.1 in
    let (free, (spared, flag)) =
      decide_step (rule_matches x v r) (is_block r.action) (is_cached_only r.action) cache_only f
        (λ c. going (evaluate x v now rules c).1)
        (All (λ (r : CompiledRule). spares x v r ≡ true) rules) (any (sends_to_cache x v) rules)
        outcome (λ g k. apply_rule-goes_on r v.client now cache_only g k)
        (λ c k. evaluate-goes_on x v now rules c f k) (sym step ∙ h) in
    ((free, spared), flag)

decide_scrape :
    (past empty listed : Bool) (e e' : ExternalScrapingEngine) (m1 m2 : Text) (o : Outcome)
    (f : Bool)
    → past ≡ false
    → (let out : ExternalScrapingEngine × Outcome =
          if past
          then (e, goes_on false)
          else if empty
          then (e, forbidden m1)
          else if listed
          then (e, forbidden m2)
          else (e', o) in
        going out.1 ≡ some f)
    → (empty ≡ false) × ((listed ≡ false) × (going o ≡ some f))
decide_scrape true empty listed e e' m1 m2 o f p h = absurd (ground arith)
decide_scrape false true listed e e' m1 m2 o f p h = absurd (grind arith)
decide_scrape false false true e e' m1 m2 o f p h = absurd (grind arith)
decide_scrape false false false e e' m1 m2 o f p h = (refl, (refl, h))

-- Where the rules are on, a request that is not for a health path goes on only if it has the
-- user agent that may be required, no list blocks it and no rule that matches it blocks; and it is
-- held to the caches exactly if a list says so or a rule that matches it.
pub scrape-goes_on :
    (x : Matching) (split : Text → Option Text) (e : ExternalScrapingEngine) (r : Request)
    (now : Reading) (f : Bool)
    → e.enabled ≡ true
    → is_health_path r ≡ false
    → (scrape x split e r now).1 ≡ goes_on f
    → ((e.block_empty_ua && is_empty (trim_space (visit_of x split r).ua)) ≡ false)
      × ((lists_match x (visit_of x split r) e.blocked_ips e.blocked_uas e.blocked_ccs ≡ false)
          × (All (λ (rule : CompiledRule). spares x (visit_of x split r) rule ≡ true) e.rules
              × (f ≡ (
                  lists_match x (visit_of x split r) e.cache_ips e.cache_uas e.cache_ccs
                  || any (sends_to_cache x (visit_of x split r)) e.rules))))
unfolding scrape
scrape-goes_on x split e r now f on plain h =
    let v = visit_of x split r in
    let cache_only = lists_match x v e.cache_ips e.cache_uas e.cache_ccs in
    let (rules, outcome) = evaluate x v now e.rules cache_only in
    let open_path : (not e.enabled || is_health_path r) ≡ false = ground arith in
    let (agent, (free, goes)) =
      decide_scrape (not e.enabled || is_health_path r)
        (e.block_empty_ua && is_empty (trim_space v.ua))
        (lists_match x v e.blocked_ips e.blocked_uas e.blocked_ccs) e (record e { rules = rules })
        (codes "User-Agent header is required") (codes "Access restricted") outcome f open_path
        (ap going h) in
    (agent, (free, evaluate-goes_on x v now e.rules cache_only f goes))
