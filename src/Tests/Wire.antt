-- ===== src/Tests/Wire.antt =====
-- A connection in memory, which delivers.
use mathlib.Core.List.{append-nil}
use network_learn.Base.{
  ℕ, ◌≡◌, refl, sym, [], ◌∷◌, ◌++◌, Option, none, some, length, take, drop, Bytes,
}
use network_learn.Socket.{Socket, Delivers}

pub record Wire : Type 0 where
  pub input : Bytes
  pub output : Bytes

abbrev pub write_wire : Bytes → Wire → Option ℕ × Wire
write_wire [] s = (none, s)
write_wire (b ∷ bs) s = (some (length (b ∷ bs)), record s { output = s.output ++ b ∷ bs })

abbrev pub wire : Socket Wire
wire = record {
  read = λ n s. (some (take n s.input), record s { input = drop n s.input });
  write = write_wire;
  send_file = λ file offset count s. (none, s);
}

pub write_wire_sent : (bs : Bytes) (s : Wire) → (write_wire bs s).1.output ≡ s.output ++ bs
write_wire_sent [] s = sym (append-nil s.output)
write_wire_sent (b ∷ bs) s = refl

pub write_wire_arrived : (bs : Bytes) (s : Wire) → (write_wire bs s).1.input ≡ s.input
write_wire_arrived [] s = refl
write_wire_arrived (b ∷ bs) s = refl

abbrev pub wire_delivers : Delivers wire
wire_delivers = record {
  arrived = λ s. s.input;
  sent = λ s. s.output;
  read_result = λ n s. refl;
  read_left = λ n s. refl;
  read_sent = λ n s. refl;
  write_result = λ b bs s. refl;
  write_sent = write_wire_sent;
  write_arrived = write_wire_arrived;
  write_none = λ s. refl;
}
