-- ===== src/Driver/Released.antt =====
-- A release of the motors is final (muto_driver.py): whatever is called after it, no leg is commanded.
use muto_rs_deployment_test.Prelude.{true, List, [], ◌∷◌, Floats, ◌≡◌, refl, if-cases, arith}
use muto_rs_deployment_test.Reachability.Grid.{Arithmetic}
use muto_rs_deployment_test.Gait.Plan.{Geometry}
use muto_rs_deployment_test.Gait.Latch.{Amplitudes, Hexapod}
use muto_rs_deployment_test.Driver.State.{Hardware, Settings, Bench, Handler, return}
use muto_rs_deployment_test.Driver.Slot.{mark_tick, update_locomotion}
use muto_rs_deployment_test.Driver.Callbacks.{
  Callback, cmd_vel_callback, get_motor_angles_callback, release_motors_callback, call_back, spin,
}
use muto_rs_deployment_test.Driver.Keeps.{
  Core, Undisturbed, continue-I, and_then-Keeps, Holds, telemetry-Keeps,
}
use muto_rs_deployment_test.Driver.Served.{
  get_motor_angles_callback-Keeps, release_motors_callback-Keeps, buzzer_callback-Keeps,
}

module _ {F P W : Type 0} ⦃fl : Floats F⦄ ⦃ar : Arithmetic F⦄ ⦃am : Amplitudes F⦄
    (geo : Geometry F P) (hw : Hardware F P W) (settings : Settings F) (K : W → Type 0)
    (u : Undisturbed hw K) where
  -- The motors are released, and the latch is that of `h`.
  abbrev IsOff : Hexapod F P → Core F P → Type 0
  IsOff h c = (c.motors_released ≡ true) × (c.muto ≡ h)

  update_locomotion-IsOff :
      (h : Hexapod F P) (s : Bench F P W)
      → Holds (IsOff h) K s
      → Holds (IsOff h) K (update_locomotion geo hw settings s).1
  unfolding update_locomotion
  update_locomotion-IsOff h s ((off, same), k) =
      let (now, w) = hw.clock s.world in
      let read = record s { world = w } in
      if-cases (λ (m : Handler F P W (Unit {0})). Holds (IsOff h) K (m read).1)
        s.driver.motors_released
        (λ _.
          telemetry-Keeps geo hw settings (IsOff h) K u
            (record read { driver = mark_tick now s.driver }) ((off, same), u.by_clock s.world k))
        (λ e. absurd (ground (arith, e, off)))

  cmd_vel_callback-IsOff :
      (h : Hexapod F P) (x y z : F) (s : Bench F P W)
      → Holds (IsOff h) K s
      → Holds (IsOff h) K (cmd_vel_callback geo hw settings x y z s).1
  unfolding cmd_vel_callback
  cmd_vel_callback-IsOff h x y z s ((off, same), k) =
      if-cases (λ (m : Handler F P W (Unit {0})). Holds (IsOff h) K (m s).1)
        s.driver.motors_released (λ _. ((off, same), k)) (λ e. absurd (ground (arith, e, off)))

  release-IsOff :
      (h : Hexapod F P) (s : Bench F P W)
      → s.driver.muto ≡ h
      → K s.world
      → Holds (IsOff h) K (call_back geo hw settings Callback.release_motors s).1
  unfolding call_back
  release-IsOff h s same k =
      continue-I {I = Holds (IsOff h) K} (release_motors_callback geo hw settings s)
        (λ _. return tt)
        (release_motors_callback-Keeps geo hw settings (IsOff h) K u s ((refl, same), k))
        (λ _ s i. i)

  call_back-IsOff :
      (h : Hexapod F P) (c : Callback F) (s : Bench F P W)
      → Holds (IsOff h) K s
      → Holds (IsOff h) K (call_back geo hw settings c s).1
  unfolding call_back
  call_back-IsOff h Callback.control_slot s i = update_locomotion-IsOff h s i
  call_back-IsOff h Callback.get_motor_angles s i =
      and_then-Keeps (get_motor_angles_callback geo hw settings) (λ _. return tt)
        (get_motor_angles_callback-Keeps geo hw settings (IsOff h) K u) (λ _ s i. i) s i
  call_back-IsOff h Callback.release_motors s ((off, same), k) = release-IsOff h s same k
  call_back-IsOff h (Callback.cmd_vel x y z) s i = cmd_vel_callback-IsOff h x y z s i
  call_back-IsOff h (Callback.buzzer on) s i =
      buzzer_callback-Keeps geo hw settings (IsOff h) K u on s i

  spin-IsOff :
      (h : Hexapod F P) (cs : List (Callback F)) (s : Bench F P W)
      → Holds (IsOff h) K s
      → Holds (IsOff h) K (spin geo hw settings cs s).1
  unfolding spin
  spin-IsOff h [] s i = i
  spin-IsOff h (c ∷ cs) s i =
      and_then-Keeps (call_back geo hw settings c) (λ _. spin geo hw settings cs)
        (call_back-IsOff h c) (λ _. spin-IsOff h cs) s i

  -- From any state of the driver, a release of the motors followed by any callbacks leaves them
  -- released, whether the release succeeds or fails, and the gait and its latch as they were. A
  -- property of the world holds at the end that held at the start, if the clock, the port, the IMU
  -- and the publishers that a released driver uses keep it: the movement of the legs need not.
  pub release_motors-IsFinal :
      (cs : List (Callback F)) (s : Bench F P W)
      → K s.world
      → ((spin geo hw settings (Callback.release_motors ∷ cs) s).1.driver.motors_released ≡ true)
        × ((spin geo hw settings (Callback.release_motors ∷ cs) s).1.driver.muto ≡ s.driver.muto)
        × K (spin geo hw settings (Callback.release_motors ∷ cs) s).1.world
  unfolding spin
  release_motors-IsFinal cs s k =
      let ((off, same), kept) =
        continue-I {I = Holds (IsOff s.driver.muto) K}
          (call_back geo hw settings Callback.release_motors s) (λ _. spin geo hw settings cs)
          (release-IsOff s.driver.muto s refl k) (λ _. spin-IsOff s.driver.muto cs) in
      (off, same, kept)
