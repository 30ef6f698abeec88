-- ===== src/Fetchers/Lichess/Retries.antt =====
-- The retries of a call that Lichess limits (`fetchLichessResult` of
-- apps/backend/src/fetchers/lichess.ts).
use smile4money.Common.{ℕ, zero, suc, ◌+◌, Option, List, [], ◌∷◌, if◌then◌else◌, leb}
use smile4money.Common.Text.{Text}
use smile4money.Fetchers.{Fetched, threw, rate_limit}
use smile4money.Fetchers.Lichess.{Response, retry_after, parse_retry_after_ms}

-- The waits that the first `k` responses from number `n` on ask for.
abbrev pub waits : (Text → Option ℕ) → (ℕ → Response) → (ℕ → ℕ) → (k n : ℕ) → List ℕ
waits parse_date request clock zero n = []
waits parse_date request clock (suc k) n =
    parse_retry_after_ms parse_date (retry_after (request n)) (clock n)
    ∷ waits parse_date request clock k (n + 1)

module _ (parse_date : Text → Option ℕ) (read : Response → ℕ → Fetched) (request : ℕ → Response)
    (clock : ℕ → ℕ) where
  abbrev expected_end : (retries k n : ℕ) → List ℕ × Fetched
  expected_end retries k n =
      if leb k retries
      then (waits parse_date request clock k n, read (request (n + k)) (clock (n + k)))
      else (waits parse_date request clock retries n, threw rate_limit)
