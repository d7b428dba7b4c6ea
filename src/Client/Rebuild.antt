-- ===== src/Client/Rebuild.antt =====
-- When failures of data channels make the client of src/client.rs rebuild its control channel.
use native.Mathlib.Nat.{mod-eq_of_lt}
use rathole_x.Base.{
  ℕ, suc, ◌+◌, ◌%◌, ◌^◌, ◌≤◌, ◌<◌, ◌≡◌, refl, ap, ◌∙◌, ◌⊎◌, inl, inr, Bool, true, false, ◌||◌,
  Option, none, some, List, [], ◌∷◌, length, leb, is_some, arith, Bool-cases, if◌then◌else◌,
}
use rathole_x.Config.{ServiceType}
use rathole_x.Protocol.{Wire, Result, done, fail, read_data_cmd, DataChannelCmd}
use rathole_x.Client.{Failures, run_data_channel, note_data_channel_failure, commanded, try_send}

-- No failure and no signal, as `ControlChannel::run` starts.
abbrev pub fresh : Failures
fresh = record { consecutive_failures = 0; force_rebuild = none }

-- Data channels one after the other, the latest first.
unfoldable pub run_all : Wire → ServiceType → List (Option (List ℕ)) → Failures
run_all w t [] = fresh
run_all w t (x ∷ xs) = (run_data_channel w t x (run_all w t xs)).1

abbrev pub is_command : Result (DataChannelCmd × List ℕ) → Bool
is_command (done _) = true
is_command (fail _) = false

-- Whether a data channel was set up: connected, and told what to forward.
abbrev pub set_up : Wire → Option (List ℕ) → Bool
set_up w none = false
set_up w (some input) = is_command (read_data_cmd w input)

-- How many of the latest data channels failed in a row.
abbrev pub latest_failures : Wire → List (Option (List ℕ)) → ℕ
latest_failures w [] = 0
latest_failures w (x ∷ xs) = if set_up w x then 0 else suc (latest_failures w xs)

-- Whether three in a row ever failed.
abbrev pub three_in_a_row : Wire → List (Option (List ℕ)) → Bool
three_in_a_row w [] = false
three_in_a_row w (x ∷ xs) = leb 3 (latest_failures w (x ∷ xs)) || three_in_a_row w xs

latest_failures-length : (w : Wire) (xs : List (Option (List ℕ))) → latest_failures w xs ≤ length xs
latest_failures-length w [] = omega arith
latest_failures-length w (x ∷ xs) = elim (Bool-cases (set_up w x)) [
  | inl t ↦ rw t (omega arith)
  | inr t ↦ rw t (omega (arith, latest_failures-length w xs))
]

note-counts :
    (f : Failures) (n : ℕ)
    → f.consecutive_failures ≡ n
    → suc n < 2 ^ 32
    → ((note_data_channel_failure f).consecutive_failures ≡ suc n)
      × (is_some (note_data_channel_failure f).force_rebuild
          ≡ (leb 3 (suc n) || is_some f.force_rebuild))
unfolding note_data_channel_failure
note-counts f n e lt =
    let m : (f.consecutive_failures + 1) % 2 ^ 32 ≡ suc n =
      ap (λ k. (k + 1) % 2 ^ 32) e ∙ mod-eq_of_lt (omega arith) ∙ omega arith in
    (m, rw m (by_count (Bool-cases (leb 3 (suc n)))))
  where
    sent : (k : ℕ) (o : Option ℕ) → is_some (try_send k o) ≡ true
    sent k none = refl
    sent k (some x) = refl

    by_count :
        ((leb 3 (suc n)) ≡ true) ⊎ ((leb 3 (suc n)) ≡ false)
        → is_some (if leb 3 (suc n) then try_send (suc n) f.force_rebuild else f.force_rebuild)
          ≡ (leb 3 (suc n) || is_some f.force_rebuild)
    by_count (inl t) = rw t (sent (suc n) f.force_rebuild)
    by_count (inr t) = rw t refl

-- After any fewer than 2 ^ 32 data channels, one after the other, the count is that of the failures
-- since the last channel that was set up, and the control channel has been told to rebuild exactly
-- if three in a row ever failed. A channel fails when the connection or the command does not come.
pub run_all-three_in_a_row :
    (w : Wire) (t : ServiceType) (xs : List (Option (List ℕ)))
    → length xs < 2 ^ 32
    → ((run_all w t xs).consecutive_failures ≡ latest_failures w xs)
      × (is_some (run_all w t xs).force_rebuild ≡ three_in_a_row w xs)
unfolding run_all run_data_channel
run_all-three_in_a_row w t [] lt = (refl, refl)
run_all-three_in_a_row w t (none ∷ xs) lt =
    let (count, told) = run_all-three_in_a_row w t xs (omega (arith, lt)) in
    let (m, q) =
      note-counts (run_all w t xs) (latest_failures w xs) count
        (omega (arith, lt, latest_failures-length w xs)) in
    (m, q ∙ ap (λ b. leb 3 (suc (latest_failures w xs)) || b) told)
run_all-three_in_a_row w t (some input ∷ xs) lt =
    let (count, told) = run_all-three_in_a_row w t xs (omega (arith, lt)) in
    by_command (read_data_cmd w input) count told (
      note-counts (run_all w t xs) (latest_failures w xs) count
        (omega (arith, lt, latest_failures-length w xs)))
  where
    by_command :
        (r : Result (DataChannelCmd × List ℕ))
        → (run_all w t xs).consecutive_failures ≡ latest_failures w xs
        → is_some (run_all w t xs).force_rebuild ≡ three_in_a_row w xs
        → ((note_data_channel_failure (run_all w t xs)).consecutive_failures
            ≡ suc (latest_failures w xs))
          × (is_some (note_data_channel_failure (run_all w t xs)).force_rebuild
              ≡ (leb 3 (suc (latest_failures w xs)) || is_some (run_all w t xs).force_rebuild))
        → (((commanded t (run_all w t xs) r).1).consecutive_failures
            ≡ (if is_command r then 0 else suc (latest_failures w xs)))
          × (is_some ((commanded t (run_all w t xs) r).1).force_rebuild ≡ (
              leb 3 (if is_command r then 0 else suc (latest_failures w xs))
              || three_in_a_row w xs))
    by_command (done _) count told noted = (refl, told)
    by_command (fail _) count told noted =
        (noted.0, noted.1 ∙ ap (λ b. leb 3 (suc (latest_failures w xs)) || b) told)
