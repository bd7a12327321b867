-- ===== src/Sdk/Input.antt =====
-- The vehicle input of src/afi_sdk.cpp: SendVehicleInput, CsiiUsesTcp and Generation. What the
-- sockets answer is an argument; the frame is that of Csii.
use afi920_sdk.Prelude.{
  ◌≢◌, ◌↔◌, refl, subst, sym, ℕ, ◌+◌, ◌%◌, ◌^◌, ◌<◌, ◌≡◌, ◌⊎◌, Bool, true, false, not, ◌&&◌, ◌||◌,
  ◌==◌, if_false, if◌then◌else◌, List, Option, none, some, arith,
}
use afi920_sdk.Interface.{InterfaceHeaders}
use afi920_sdk.E2e.{Generation, unknown, v1_0}
use afi920_sdk.Csii.{Packers, VehicleInput, csii_build_frame}
use afi920_sdk.Error.{AfiError, success, not_initialized, connect_failed}
use afi920_sdk.Sdk.{Transport, tcp, udp, State, is_not_init}

pub is_unknown : Generation → Bool
is_unknown unknown = true
is_unknown _ = false

pub is_v1_0 : Generation → Bool
is_v1_0 v1_0 = true
is_v1_0 _ = false

-- `Generation`: the probe's answer first, then the last valid stream frame's.
pub generation : Generation → Generation → Generation
generation probed stream = if is_unknown probed then stream else probed

pub csii_uses_tcp : Transport → Generation → Generation → Bool
csii_uses_tcp tcp probed stream = true
csii_uses_tcp udp probed stream = false
csii_uses_tcp _ probed stream = is_v1_0 (generation probed stream)

-- The members that sending uses.
pub record Sender : Type 0 where
  pub csii_counter : ℕ
  pub csii_session : ℕ
  pub tcp_connected : Bool
  pub udp_connected : Bool

-- The answers of the sockets and of the clock.
pub record Answers : Type 0 where
  pub connects : Bool
  pub sends : Bool
  pub now : ℕ

-- The transport in use is connected if it is not yet; the other one is closed.
pub connect : Bool → Bool → Sender → Sender × Bool
connect use_tcp connects s =
    let over_tcp = record s { udp_connected = false; tcp_connected = true } in
    let over_udp = record s { tcp_connected = false; udp_connected = true } in
    if use_tcp
    then (if s.tcp_connected || connects
        then (over_tcp, true)
        else (record s { udp_connected = false }, false))
    else if s.udp_connected || connects
    then (over_udp, true)
    else (record s { tcp_connected = false }, false)

-- The session counts from 1 to 0xFFFF and around.
pub next_session : ℕ → ℕ
next_session session = let next : ℕ = (session + 1) % 2 ^ 16 in if next == 0 then 1 else next

-- What `Send` leaves of the sockets: TcpSender closes its own when it fails, UdpSender keeps it.
pub after_send : Bool → Bool → Sender → Sender
after_send use_tcp sends s = if use_tcp && not sends then record s { tcp_connected = false } else s

-- `SendVehicleInput`: the new members, the frame that was sent, if one was, and the result.
pub send_vehicle_input :
    Packers
    → InterfaceHeaders
    → State
    → Bool
    → Answers
    → VehicleInput
    → Sender
    → Sender × Option (List ℕ) × AfiError
send_vehicle_input k h state use_tcp a input s =
    let joined = connect use_tcp a.connects s in
    let ts : ℕ = if input.timestamp_ns == 0 then a.now else input.timestamp_ns in
    let session : ℕ = next_session s.csii_session in
    let sent = record joined.0 {
      csii_counter = (s.csii_counter + 1) % 2 ^ 32;
      csii_session = session;
    } in
    let frame = csii_build_frame k h input s.csii_counter session ts in
    if is_not_init state
    then (s, none, not_initialized)
    else if not joined.1
    then (joined.0, none, connect_failed)
    else (
      after_send use_tcp a.sends sent,
      some frame,
      (if a.sends then success else connect_failed),
    )

-- At most one of the two sockets is connected.
pub IsSingle : Sender → Type 0
IsSingle s = (s.tcp_connected && s.udp_connected) ≡ false

-- The socket of the transport in use.
pub in_use : Bool → Sender → Bool
in_use use_tcp s = if use_tcp then s.tcp_connected else s.udp_connected

-- The sessions are 1, 2, ..., 0xFFFF and again from 1.
pub IsNext : ℕ → ℕ → Type 0
IsNext old new = ((old ≡ 0xFFFF) × (new ≡ 1)) ⊎ ((old < 0xFFFF) × (new ≡ old + 1))

-- How a call on an initialised SDK can end, with the members before it. Either the transport in use
-- cannot be connected, and the counters stay; or a frame leaves with the old counter and the next
-- session, which both are taken whether or not the socket takes the frame, and the socket of a failed
-- TCP send is closed.
pub data IsSent (k : Packers) (h : InterfaceHeaders) (use_tcp : Bool) (a : Answers)
    (input : VehicleInput) (before : Sender) : Sender × Option (List ℕ) × AfiError → Type 0 where
  unconnected :
      (after : Sender)
      → in_use use_tcp before ≡ false
      → a.connects ≡ false
      → in_use use_tcp after ≡ false
      → IsSingle after
      → after.csii_counter ≡ before.csii_counter
      → after.csii_session ≡ before.csii_session
      → IsSent k h use_tcp a input before (after, none, connect_failed)
  sent :
      (after : Sender) (ts : ℕ) (e : AfiError)
      → IsNext before.csii_session after.csii_session
      → after.csii_counter ≡ (before.csii_counter + 1) % 2 ^ 32
      → in_use use_tcp after ≡ (a.sends || not use_tcp)
      → IsSingle after
      → (e ≡ success) ↔ (a.sends ≡ true)
      → ((ts ≡ input.timestamp_ns) × (ts ≢ 0)) ⊎ ((input.timestamp_ns ≡ 0) × (ts ≡ a.now))
      → IsSent k h use_tcp a input before
          (after, some (csii_build_frame k h input before.csii_counter after.csii_session ts), e)

next_session-IsNext : (session : ℕ) → session < 2 ^ 16 → IsNext session (next_session session)
unfolding IsNext next_session
next_session-IsNext session h = ground arith

if-IsSent :
    (k : Packers) (h : InterfaceHeaders) (use_tcp : Bool) (a : Answers) (input : VehicleInput)
    (s : Sender) (b : Bool) {x y : Sender × Option (List ℕ) × AfiError}
    → (b ≡ true → IsSent k h use_tcp a input s x)
    → (b ≡ false → IsSent k h use_tcp a input s y)
    → IsSent k h use_tcp a input s (if b then x else y)
if-IsSent k h use_tcp a input s true p q = p refl
if-IsSent k h use_tcp a input s false p q = q refl

-- What `connect` leaves where it fails, and where it succeeds.
connect_refused :
    (use_tcp connects : Bool) (s : Sender)
    → (connect use_tcp connects s).1 ≡ false
    → (in_use use_tcp s ≡ false)
      × (connects ≡ false)
      × (in_use use_tcp (connect use_tcp connects s).0 ≡ false)
      × ((connect use_tcp connects s).0.csii_counter ≡ s.csii_counter)
      × ((connect use_tcp connects s).0.csii_session ≡ s.csii_session)
unfolding connect in_use
connect_refused use_tcp connects s e = ground arith

connect-IsSingle : (use_tcp connects : Bool) (s : Sender) → IsSingle (connect use_tcp connects s).0
unfolding connect IsSingle
connect-IsSingle use_tcp connects s = ground arith

-- The members behind a frame that was built.
taken : Bool → Answers → Sender → Sender
taken use_tcp a s = after_send use_tcp a.sends (record (connect use_tcp a.connects s).0 {
  csii_counter = (s.csii_counter + 1) % 2 ^ 32;
  csii_session = next_session s.csii_session;
})

taken_counts :
    (use_tcp : Bool) (a : Answers) (s : Sender)
    → ((taken use_tcp a s).csii_session ≡ next_session s.csii_session)
      × ((taken use_tcp a s).csii_counter ≡ (s.csii_counter + 1) % 2 ^ 32)
unfolding taken after_send
taken_counts use_tcp a s = ground arith

taken_sockets :
    (use_tcp : Bool) (a : Answers) (s : Sender)
    → (connect use_tcp a.connects s).1 ≡ true
    → (in_use use_tcp (taken use_tcp a s) ≡ (a.sends || not use_tcp)) × IsSingle (taken use_tcp a s)
unfolding taken after_send connect in_use IsSingle
taken_sockets use_tcp a s e = ground arith

-- Once the SDK is initialised, with a session below 2^16 before, a call ends in one of two ways. Either
-- the transport in use was not connected and cannot be: no frame is built, the counter and the session
-- stay, and the result is kConnectFailed. Or one frame is built of the input with the old counter, the
-- session after the old one in 1, 2, ..., 0xFFFF and around, and the input's timestamp or, for 0, the
-- clock's; both counts are taken also where the send fails, which alone decides the result; and a failed
-- TCP send leaves its socket closed, a failed UDP send its socket open. Never are both sockets connected.
pub send_vehicle_input-IsSent :
    (k : Packers) (h : InterfaceHeaders) (state : State) (use_tcp : Bool) (a : Answers)
    (input : VehicleInput) (s : Sender)
    → is_not_init state ≡ false
    → s.csii_session < 2 ^ 16
    → IsSent k h use_tcp a input s (send_vehicle_input k h state use_tcp a input s)
unfolding send_vehicle_input after_send taken
send_vehicle_input-IsSent k h state use_tcp a input s e lt =
    let joined = connect use_tcp a.connects s in
    let counts = taken_counts use_tcp a s in
    let ts : ℕ = if input.timestamp_ns == 0 then a.now else input.timestamp_ns in
    subst (IsSent k h use_tcp a input s) (sym (if_false (is_not_init state) _ _ e)) (
      if-IsSent k h use_tcp a input s (not joined.1)
        (λ b.
          let r = connect_refused use_tcp a.connects s (ground arith) in
          unconnected joined.0 r.0 r.1 r.2 (connect-IsSingle use_tcp a.connects s) r.3 r.4)
        (λ b.
          let sockets = taken_sockets use_tcp a s (ground arith) in
          subst
            (λ session. IsSent k h use_tcp a input s (
              taken use_tcp a s,
              some (csii_build_frame k h input s.csii_counter session ts),
              (if a.sends then success else connect_failed),
            ))
            counts.0
            (sent (taken use_tcp a s) ts (if a.sends then success else connect_failed)
              (rw (counts.0) (next_session-IsNext s.csii_session lt)) counts.1 sockets.0 sockets.1
              (ground arith) (ground arith))))
