-- ===== src/Examples/Replays.antt =====
-- A regretable reader over three bytes, with a buffer of two.
use n6bagent.Prelude.{◌≡◌, refl, some, [], ◌∷◌, length, take, inl}
use n6bagent.Goproxy.Http.{Error}
use n6bagent.Goproxy.Regret.{Reader, new_reader_size, regret, read}
use n6bagent.Goproxy.Regret.Replay.{Advances, read-Stands, new_reader_size-Kept}
use n6bagent.Goproxy.Regret.Runs.{reads, regret_replays}

abbrev three : Reader
unfolding new_reader_size
three = new_reader_size (1 ∷ 2 ∷ 3 ∷ []) Error.eof 2

read-Stands_example : Advances three (1 ∷ 2 ∷ 3 ∷ []) 0 (read 2 1 three)
unfolding three new_reader_size
read-Stands_example =
    read-Stands 2 1 three (1 ∷ 2 ∷ 3 ∷ []) 0
      (inl (new_reader_size-Kept (1 ∷ 2 ∷ 3 ∷ []) Error.eof 2))

regret_replays_example :
    (rb : Reader) × (regret (reads ((1, 1) ∷ (1, 1) ∷ []) three).1 ≡ some rb)
    × ((reads ((3, 3) ∷ []) rb).0 ≡ take (length (reads ((3, 3) ∷ []) rb).0) (1 ∷ 2 ∷ 3 ∷ []))
unfolding read three new_reader_size
regret_replays_example =
    regret_replays ((1, 1) ∷ (1, 1) ∷ []) ((3, 3) ∷ []) (1 ∷ 2 ∷ 3 ∷ []) Error.eof 2 refl
