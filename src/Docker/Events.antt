-- ===== src/Docker/Events.antt =====
-- internal/docker/client.go, `GetVolumeEvents`: the channel of events, by what happens to it. `range` is
-- the order in which a tick visits the volumes.
use mathlib.Core.List.{append_assoc, append-nil}
use syncmesh.Common.{
  ◌≡◌, refl, ◌⊎◌, inl, inr, ◌∙◌, ap, sym, subst, suc, ◌≤◌, ltb, Bool, true, false, List, [], ◌∷◌,
  ◌++◌, length, length-append, Time, Map, arith, Bool-cases,
}
use syncmesh.Docker.State.{Volume, VolumeEvent, send_events}

-- The context ends, which closes the channel, a tick at a time, or the reader takes an event.
pub data Moment : Type 0 where
  done take : Moment
  tick : Time → Moment

unfoldable pub without_first : List VolumeEvent → List VolumeEvent
without_first [] = []
without_first (event ∷ events) = events

-- The events that wait, and whether the channel is closed.
unfoldable pub event_loop :
    (Map Volume → Map Volume)
    → Map Volume
    → List Moment
    → List VolumeEvent
    → List VolumeEvent × Bool
event_loop range volumes [] channel = (channel, false)
event_loop range volumes (Moment.done ∷ moments) channel = (channel, true)
event_loop range volumes (Moment.take ∷ moments) channel =
    event_loop range volumes moments (without_first channel)
event_loop range volumes (Moment.tick now ∷ moments) channel =
    event_loop range volumes moments (send_events now (range volumes) channel)

-- A tick on a channel that holds at most 100 events keeps those that wait, in their order, and adds one for each volume, but never more than
-- the channel holds: some are missing only if it is full.
pub send_events-bounds :
    (now : Time) (visited : Map Volume) (channel : List VolumeEvent)
    → length channel ≤ 100
    → (sent : List VolumeEvent) × (send_events now visited channel ≡ channel ++ sent)
      × (length (channel ++ sent) ≤ 100)
      × ((length sent ≡ length visited) ⊎ (length (channel ++ sent) ≡ 100))
unfolding send_events
send_events-bounds now [] channel fits =
    ([], sym (append-nil channel), ground (arith, length-append channel []), inl refl)
send_events-bounds now ((k, volume) ∷ visited) channel fits =
    elim (Bool-cases (ltb (length channel) 100)) [
      | inl room ↦
          let (sent, same, still, how) =
            send_events-bounds now visited (channel ++ event ∷ [])
              (ground (arith, length-append channel (event ∷ []))) in
          let joined = append_assoc channel (event ∷ []) sent in
          (
            event ∷ sent,
            rw room (same ∙ joined),
            subst (λ (es : List VolumeEvent). length es ≤ 100) joined still,
            elim how [
              | inl all ↦ inl (ap suc all)
              | inr full ↦ inr (subst (λ (es : List VolumeEvent). length es ≡ 100) joined full)
            ],
          )
      | inr full ↦
          let (sent, same, still, how) = send_events-bounds now visited channel fits in
          (sent, rw full same, still, inr (ground (arith, length-append channel sent)))
    ]
  where
    event : VolumeEvent
    event = record {
      type = "volume-update";
      volume_name = k;
      timestamp = now;
      attributes = ("driver", "local") ∷ [];
    }

shorter : (channel : List VolumeEvent) → length channel ≤ 100 → length (without_first channel) ≤ 100
unfolding without_first
shorter [] fits = fits
shorter (event ∷ events) fits = omega (arith, fits)

-- However often the ticks come and the reader takes an event, the channel holds at most its capacity.
pub event_loop-bounded :
    (range : Map Volume → Map Volume) (volumes : Map Volume) (moments : List Moment)
    (channel : List VolumeEvent)
    → length channel ≤ 100
    → length (event_loop range volumes moments channel).0 ≤ 100
unfolding event_loop
event_loop-bounded range volumes [] channel fits = fits
event_loop-bounded range volumes (Moment.done ∷ moments) channel fits = fits
event_loop-bounded range volumes (Moment.take ∷ moments) channel fits =
    event_loop-bounded range volumes moments (without_first channel) (shorter channel fits)
event_loop-bounded range volumes (Moment.tick now ∷ moments) channel fits =
    let (sent, same, still, _) = send_events-bounds now (range volumes) channel fits in
    event_loop-bounded range volumes moments (send_events now (range volumes) channel)
      (rw same still)
