-- ===== src/Docker/Waiting.antt =====
-- internal/docker/client.go: waiting for a volume. The loop takes what its select finds ready: the
-- time-out, or a tick, which reads the volumes as they are then.
use syncmesh.Common.{◌≡◌, refl, ◌⊎◌, inr, String, true, maybe, List, [], ◌∷◌, ◌++◌, contains, arith}
use syncmesh.Docker.State.{Client, get_volume}

pub data Moment : Type 0 where
  timed_out : Moment
  tick : Client → Moment

pub data Waited : Type 0 where
  ready timeout waiting : Waited

-- `WaitForVolumeReady`.
unfoldable pub wait_for_volume_ready : String → List Moment → Waited
wait_for_volume_ready volume_name [] = Waited.waiting
wait_for_volume_ready volume_name (Moment.timed_out ∷ moments) = Waited.timeout
wait_for_volume_ready volume_name (Moment.tick c ∷ moments) =
    let rest = wait_for_volume_ready volume_name moments in
    maybe (get_volume volume_name c) rest λ volume. Waited.ready

abbrev pub ticks : List Client → List Moment
ticks [] = []
ticks (c ∷ cs) = Moment.tick c ∷ ticks cs

-- The volume is there at some tick.
abbrev pub Appears : String → List Client → Type 0
Appears volume_name [] = ⊥
Appears volume_name (c ∷ cs) = (contains volume_name c.volumes ≡ true) ⊎ Appears volume_name cs

-- Waiting for a volume ends when its time is over at the latest: with success if the volume is there
-- at a tick before, whatever comes after, and with the time-out if it is there at none.
pub wait_for_volume_ready-ends :
    (volume_name : String) (cs : List Client) (moments : List Moment)
    → let result = wait_for_volume_ready volume_name (ticks cs ++ Moment.timed_out ∷ moments) in
      (Appears volume_name cs × (result ≡ Waited.ready))
      ⊎ ((¬ Appears volume_name cs) × (result ≡ Waited.timeout))
unfolding wait_for_volume_ready get_volume
wait_for_volume_ready-ends volume_name [] moments = inr (λ h. h, refl)
wait_for_volume_ready-ends volume_name (c ∷ cs) moments =
    ground (arith, wait_for_volume_ready-ends volume_name cs moments)
