-- ===== src/Play/Examples.antt =====
-- Two players of one browser: the first excludes itself for a week and limits its stakes.
use smile4money.Common.{ℕ, ◌≡◌, ◌≢◌, ◌≤◌, refl, true, false, none, some, List, [], ◌∷◌, arith}
use smile4money.Common.OrderedMap.{get, set}
use smile4money.Common.Text.{Text, text, text_eq}
use smile4money.Play.{
  Browser, ResponsiblePlaySettings, days7, hours24, load_settings, save_settings,
  start_self_exclusion, set_stake_limit, check_wager_allowed, self_excluded, allowed, amount,
}
use smile4money.Play.Storage.{IsValid, load-save}
use smile4money.Play.History.{Event, exclude, limit, storage_changes, step, after_all}
use smile4money.Play.SelfExclusion.{exclusion_lasts}
use smile4money.Play.Limits.{limit_holds}

abbrev fresh : Browser
fresh = record { available = true; full = false; items = [] }

abbrev player : Text
player = text "GA1"

abbrev excluded : Browser
unfolding start_self_exclusion
excluded = (start_self_exclusion player days7 1000 fresh).0

abbrev limited : Browser
unfolding step
limited = step (limit player (some 500) 1000) fresh

abbrev later : List Event
later =
    exclude player hours24 2000
    ∷ limit player none 3000
    ∷ storage_changes false false
    ∷ limit (text "GB2") (some 7) 4000
    ∷ limit player (some 900) 5000
    ∷ storage_changes true false
    ∷ []

exclusion_lasts_example :
    (until : ℕ) × (604801000 ≤ until)
    × (check_wager_allowed player 10 604800999 (after_all later excluded) ≡ self_excluded until)
exclusion_lasts_example =
    exclusion_lasts player later excluded 604801000 10 604800999
      (unfold excluded load_settings get set in refl) (omega arith)
      (unfold after_all excluded step in refl)

limit_holds_example : check_wager_allowed player 501 80000000 (after_all later limited) ≢ allowed
limit_holds_example =
    limit_holds player later limited 500 2000 80000000 501
      (unfold limited load_settings set_stake_limit amount get set in refl)
      (unfold limited load_settings set_stake_limit get set in refl)
      (
        (omega arith, omega arith),
        (
          (omega arith, omega arith),
          ((omega arith, omega arith), ((omega arith, omega arith), tt)),
        ),
      )
      (omega arith) (omega arith) (unfold after_all limited step in refl)

abbrev settings : ResponsiblePlaySettings
settings = record {
  excluded_until = some 9000;
  stake_limit = some (text "500");
  pending_limit = some (record { value = none; effective_at = 7000 });
}

load-save_example : load_settings player (save_settings player settings fresh).0 ≡ settings
unfolding save_settings
load-save_example = load-save player player settings fresh (unfold IsValid in (refl, tt))
