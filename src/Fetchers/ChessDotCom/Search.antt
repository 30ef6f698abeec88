-- ===== src/Fetchers/ChessDotCom/Search.antt =====
-- Which game the search through the archives returns (`fetchChessDotComResult` of
-- apps/backend/src/fetchers/chessdotcom.ts).
use smile4money.Common.{
  ℕ, zero, suc, ◌+◌, ◌-◌, ◌<◌, ◌≡◌, ◌⊎◌, ◌∙◌, sym, ap, subst, refl, Option, none, some, List, [],
  ◌∷◌, arith, Option-cases, inl, inr,
}
use smile4money.Common.Text.{Text, text, text_eq}
use smile4money.Match.{MatchResult}
use smile4money.Fetchers.{
  Evidence, evidence_for, seconds, end_date, Fetched, returned, NormalizedGameResult,
  normalize_result,
}
use smile4money.Fetchers.ChessDotCom.{
  ChessDotComGame, Response, Archive, games, failed, map_result, matching, read_game, fetch_archive,
  choose, choose_game, search,
}

module _ (hash : List ChessDotComGame → Text) (live_url : Text → Text) (archive_url : ℕ × ℕ → Text)
    (now : ℕ) (request : ℕ × ℕ → Response) (game_id : Text) where
  abbrev archive : ℕ → Archive
  archive month = fetch_archive hash live_url archive_url now request month

  -- The archive of a month is read and has these games with the id.
  abbrev pub Has : ℕ → List ChessDotComGame → Type 0
  Has month found =
      (gs : List ChessDotComGame) × (archive month ≡ games gs) × (matching game_id gs ≡ found)

  abbrev read : ChessDotComGame → Fetched
  read g = read_game hash live_url archive_url now game_id g

  picked :
      (rest : Fetched) (found : List ChessDotComGame) (r : NormalizedGameResult)
      → choose_game hash live_url archive_url now game_id rest found ≡ returned r
      → ((found ≡ []) × (rest ≡ returned r))
        ⊎ ((g : ChessDotComGame) × (found ≡ g ∷ []) × (read g ≡ returned r))
  unfolding choose_game
  picked rest [] r h = inl (refl, h)
  picked rest (g ∷ []) r h = inr (g, refl, h)
  picked rest (g ∷ g' ∷ gs) r h = absurd (ground (arith, h))

  chosen :
      (rest : Fetched) (a : Archive) (r : NormalizedGameResult)
      → choose hash live_url archive_url now game_id rest a ≡ returned r
      → (gs : List ChessDotComGame) × (a ≡ games gs)
        × (((matching game_id gs ≡ []) × (rest ≡ returned r))
            ⊎ ((g : ChessDotComGame) × (matching game_id gs ≡ g ∷ []) × (read g ≡ returned r)))
  unfolding choose
  chosen rest (failed e) r h = absurd (ground (arith, h))
  chosen rest (games gs) r h = (gs, refl, picked rest (matching game_id gs) r h)

  normalized_result :
      (w b : Option Text) (o : Option MatchResult) (t : Option ℕ) (e : Evidence)
      (r : NormalizedGameResult)
      → normalize_result game_id w b o t seconds e ≡ returned r
      → r.result ≡ o
  unfolding normalize_result
  normalized_result none b o t e r h = absurd (ground (arith, h))
  normalized_result (some w) none o t e r h = absurd (ground (arith, h))
  normalized_result (some w) (some b) none t e r h = ground (arith, h)
  normalized_result (some w) (some b) (some m) t e r h = elim (Option-cases (end_date seconds t)) [
    | inl d ↦ absurd (ground (arith, h, d))
    | inr (ms, d) ↦ ground (arith, h, d)
  ]

  read-result :
      (g : ChessDotComGame) (r : NormalizedGameResult)
      → read g ≡ returned r
      → map_result g.white_result g.black_result ≡ some r.result
  unfolding read_game
  read-result g r h = elim (Option-cases (map_result g.white_result g.black_result)) [
    | inl e ↦ absurd (ground (arith, h, e))
    | inr (o, e) ↦
        let e' = evidence_for (text "chessdotcom") (live_url game_id) (hash (g ∷ [])) now in
        let n : normalize_result game_id g.white_username g.black_username o g.end_time seconds e'
            ≡ returned r =
          ground (arith, h, e) in
        e ∙ ap some (sym (normalized_result g.white_username g.black_username o g.end_time e' r n))
  ]

  none_earlier :
      (k month : ℕ)
      → Has month []
      → ((i : ℕ) → i < k → Has ((month - 1) - i) [])
      → (i : ℕ) → i < k + 1
      → Has (month - i) []
  none_earlier k month h rest zero l = subst (λ m. Has m []) (omega arith) h
  none_earlier k month h rest (suc i) l =
      subst (λ m. Has m []) (omega arith) (rest i (omega (arith, l)))

  -- A result that the search returns is that of a game with the id asked for, which is the only one in
  -- the archive of its month; no archive after that month has the game.
  pub search-IsFound :
      (months month : ℕ) (r : NormalizedGameResult)
      → search hash live_url archive_url now request months month game_id ≡ returned r
      → (k : ℕ) × (k < months)
        × ((g : ChessDotComGame) × Has (month - k) (g ∷ [])
            × (map_result g.white_result g.black_result ≡ some r.result))
        × ((i : ℕ) → i < k → Has (month - i) [])
  unfolding search
  search-IsFound zero month r h = absurd (ground (arith, h))
  search-IsFound (suc months) month r h =
      let (gs, e, c) =
        chosen (search hash live_url archive_url now request months (month - 1) game_id)
          (archive month) r h in
      let here : month - 0 ≡ month = omega arith in
      elim c [
        | inr (g, f, n) ↦ (
          0,
          omega arith,
          (g, subst (λ m. Has m (g ∷ [])) (sym here) (gs, e, f), read-result g r n),
          λ i l. absurd (omega (arith, l)),
        )
        | inl (f, n) ↦
            let (k, l, (g, has, o), none_after) = search-IsFound months (month - 1) r n in
            (
              k + 1,
              omega (arith, l),
              (g, subst (λ m. Has m (g ∷ [])) (omega arith) has, o),
              none_earlier k month (gs, e, f) none_after,
            )
      ]
