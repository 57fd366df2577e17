-- ===== src/Tests/Limits.antt =====
-- Two streams at once, and an allowance of ten work units.
use mnr.Common.{ℕ, ◌+◌, ◌≡◌, refl, List, [], ◌∷◌, arith}
use mnr.Limits.Memory.{
  Counts, count_of, take_slot, Streams, Event, open_stream, drop_permit, handle_all, handle,
  release, put_back, drop_one, lookup, store, remove, stream_wu,
}
use mnr.Limits.Slots.{IsCounted, handle_all-IsCounted}

abbrev two_each : ℕ → ℕ
two_each id = 2

abbrev nothing_held : Streams
nothing_held = record { counts = []; held = [] }

nothing-IsCounted : IsCounted two_each nothing_held
unfolding lookup
nothing-IsCounted id = (refl, omega arith)

-- The third stream of principal 7 is refused; the fourth finds a slot.
abbrev events : List Event
events =
    open_stream 7
    ∷ open_stream 7
    ∷ open_stream 7
    ∷ open_stream 8
    ∷ drop_permit 7
    ∷ open_stream 7
    ∷ []

events_handled : (handle_all two_each nothing_held events).held ≡ 7 ∷ 8 ∷ 7 ∷ []
unfolding handle_all handle take_slot release put_back drop_one lookup store remove
events_handled = refl

handle_all-IsCounted_example : IsCounted two_each (handle_all two_each nothing_held events)
handle_all-IsCounted_example = handle_all-IsCounted two_each nothing_held events nothing-IsCounted

abbrev used_six : Counts
used_six = (7, 6) ∷ []

used_fits : count_of used_six 7 + 4 ≡ 10
unfolding lookup
used_fits = refl

half_a_megabyte : stream_wu 500001 ≡ 11
unfolding stream_wu
half_a_megabyte = refl
