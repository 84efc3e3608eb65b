-- ===== src/Ps2/Board/Mouse.antt =====
-- `identify_reply` of `reset_port` with a device whose identity is one byte, as that of a mouse.
use drewos.Base.{ℕ, ◌+◌, ◌*◌, ◌^◌, ◌<◌, ◌≡◌, refl, ◌==◌, not, [], ◌∷◌, arith, u16}
use drewos.Base.Bytes.{passes_below, passes_below_at}
use drewos.Machine.{Device, Machine}
use drewos.Machine.Ends.{Ends}
use drewos.Ps2.Identity.{get_device_type}
use drewos.Ps2.Config.Flags.{agree, agree-eq}
use drewos.Ps2.Reset.{identify_reply}
use drewos.Ps2.Init.{is_unknown}
use drewos.Ps2.Board.{Board, Obeys, after_trace, taken, shown}
use drewos.Ps2.Board.World.{World, with_board, world, In-world, world-In, Others}
use drewos.Ps2.Board.Talks.{Talks, Talks-pure, Talks-value}
use drewos.Ps2.Board.Transfers.{expect-Talks}

-- The identity that comes of one byte.
abbrev pub doubled : ℕ → ℕ
doubled byte = byte * 2 ^ 8 + byte

pub doubled-is_unknown :
    (byte : ℕ) → byte < 2 ^ 8 → is_unknown (get_device_type (doubled byte)) ≡ not (byte == 0)
unfolding passes_below get_device_type
doubled-is_unknown byte h =
    let t =
      passes_below_at (λ b. agree (is_unknown (get_device_type (doubled b))) (not (b == 0))) 256 h
        refl in
    agree-eq _ _ t

-- The byte is there, and it stays at the data port when it has been read.
one_byte :
    (b : Board) (byte : ℕ) → b.output ≡ byte ∷ [] → (shown b ≡ byte) × (shown (taken b) ≡ byte)
one_byte b byte one = rw one (refl, refl)

module _ (start : Board) (dev : Device) (obeys : Obeys start dev) where
  identify_reply-Talks :
      (w : World) (before byte : ℕ)
      → byte < 2 ^ 8
      → w.board.output ≡ byte ∷ []
      → Talks start
          (identify_reply dev before)
          w
          (doubled byte)
          (with_board (taken (taken w.board)) w)
  unfolding identify_reply
  identify_reply-Talks w before byte h one = expect-Talks start dev obeys _ λ first e.
      expect-Talks start dev obeys _ λ second e'.
        let (here, again) = one_byte w.board byte one in
        let both : u16 (first * 2 ^ 8 + second) ≡ doubled byte =
          omega (arith, e, e', here, again) in
        Talks-value both (Talks-pure (u16 (first * 2 ^ 8 + second)))

-- On the hardware of Ps2/Board with a single byte in the output buffer, `identify_reply` returns, and
-- it has read that byte twice: the wait for a second one is in vain, but reports a response. The
-- identity is 257 times the byte, and a device with it is unknown to the driver unless the byte is
-- 0. All variables are as before, and so is the memory outside of the video buffer, if the column
-- was one of the screen.
pub identify_reply-doubled :
    (start : Board) (dev : Device)
    → Obeys start dev
    → (before byte : ℕ) (m : Machine) → byte < 2 ^ 8
    → (after_trace start m.trace).output ≡ byte ∷ []
    → Ends (identify_reply dev before) m (λ id n.
      (id ≡ doubled byte)
      × (is_unknown (get_device_type id) ≡ not (byte == 0))
      × (world start n ≡ with_board (taken (taken (after_trace start m.trace))) (world start m))
      × Others m n)
identify_reply-doubled start dev obeys before byte m h one =
    let (n, e, i, o) =
      (identify_reply-Talks start dev obeys (world start m) before byte h one).run m
        (In-world start m) in
    record {
      value = doubled byte;
      behind = n;
      returns = e;
      post = (refl, doubled-is_unknown byte h, world-In i, o);
    }
