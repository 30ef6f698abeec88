-- ===== src/Eligibility/Rules.antt =====
-- The games of the two platforms that are eligible (apps/backend/src/services/game-eligibility.ts).
use smile4money.Common.{
  ◌≡◌, refl, ◌∙◌, Bool, true, false, ◌&&◌, ◌||◌, not, Option, none, some, List, ◌++◌, arith,
  Bool-cases, Option-cases, inl, inr,
}
use smile4money.Common.Keys.{◌===◌, is_value}
use smile4money.Common.OrderedSet.{member}
use smile4money.Common.Text.{Text, text, text_eq, text_beq_iff}
use smile4money.Eligibility.{
  GameMetadata, EligibilityRejectionCode, supported_variants, supported_speeds,
  unverifiable_end_statuses, check_game_eligibility, is_there_and, lacks_clock, no_rejection,
  rejection_if, LichessPayload, lichess_metadata,
}

-- A field that is there has one of these values.
abbrev pub states_one_of : List Text → Option Text → Bool
states_one_of values none = true
states_one_of values (some s) = member s values

abbrev pub states_none_of : List Text → Option Text → Bool
states_none_of values none = true
states_none_of values (some s) = not (member s values)

slow_is_unsupported :
    (speed : Option Text)
    → (is_value (text "correspondence") speed || is_value (text "unlimited") speed) ≡ true
    → states_one_of supported_speeds speed ≡ false
slow_is_unsupported none h = ground (arith, h)
slow_is_unsupported (some s) h = elim (Bool-cases (s === text "correspondence")) [
  | inl e ↦ rw ((text_beq_iff s (text "correspondence")).0 e) (unfold member in refl)
  | inr e ↦
      let f : (s === text "unlimited") ≡ true = ground (arith, h, e) in
      rw ((text_beq_iff s (text "unlimited")).0 f) (unfold member in refl)
]

rejections_lem :
    (a b c d : Bool) (p q r t : EligibilityRejectionCode)
    → no_rejection (rejection_if a p ++ rejection_if b q ++ rejection_if c r ++ rejection_if d t)
      ≡ (((not a && not b) && not c) && not d)
rejections_lem true b c d p q r t = refl
rejections_lem false true c d p q r t = refl
rejections_lem false false true d p q r t = refl
rejections_lem false false false true p q r t = refl
rejections_lem false false false false p q r t = refl

unsupported_lem :
    (values : List Text) (o : Option Text)
    → not (is_there_and (λ s. not (member s values)) o) ≡ states_one_of values o
unsupported_lem values none = refl
unsupported_lem values (some s) = ground arith

unverifiable_lem :
    (values : List Text) (o : Option Text)
    → not (is_there_and (λ s. member s values) o) ≡ states_none_of values o
unverifiable_lem values none = refl
unverifiable_lem values (some s) = refl

pub eligible_lem :
    (g : GameMetadata)
    → (check_game_eligibility g).eligible ≡ (
        ((states_one_of supported_variants g.variant && states_one_of supported_speeds g.speed)
          && not (lacks_clock g.initial_seconds))
        && states_none_of unverifiable_end_statuses g.status)
unfolding check_game_eligibility
eligible_lem g =
    let a = is_there_and (λ v. not (member v supported_variants)) g.variant in
    let b = is_there_and (λ s. not (member s supported_speeds)) g.speed in
    let d = is_there_and (λ s. member s unverifiable_end_statuses) g.status in
    rejections_lem a b (lacks_clock g.initial_seconds) d _ _ _ _
    ∙ ground (
      arith,
      unsupported_lem supported_variants g.variant,
      unsupported_lem supported_speeds g.speed,
      unverifiable_lem unverifiable_end_statuses g.status,
    )

-- The clock of Lichess adds nothing.
pub clock_follows :
    (raw : LichessPayload)
    → (states_one_of supported_speeds raw.speed
        && not (lacks_clock (lichess_metadata (some raw)).initial_seconds))
      ≡ states_one_of supported_speeds raw.speed
unfolding lichess_metadata
clock_follows raw = elim (Option-cases raw.clock_initial) [
  | inr (n, e) ↦ ground (arith, e)
  | inl e ↦
      elim (Bool-cases
        (is_value (text "correspondence") raw.speed || is_value (text "unlimited") raw.speed)) [
          | inl slow ↦ ground (arith, e, slow, slow_is_unsupported raw.speed slow)
          | inr fast ↦ ground (arith, e, fast)
        ]
]
