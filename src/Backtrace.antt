-- ===== src/Backtrace.antt =====
-- `BackTrace` of util/backtrace.h and util/backtrace.cpp, as it is built for Unix. A handler is a function of
-- the text that it is given to what it writes.
use network_learn.Base.{
  ℤ, negsuc, ℕ, ◌+◌, ◌≡◌, refl, Bool, true, false, List, [], ◌∷◌, ◌++◌, Option, none, some, arith,
  ◌==◌, if◌then◌else◌, length, All, Bytes, codes,
}
use network_learn.Util.Decimal.{to_string, is_digit, to_string-IsNumeral}

-- `instance()`: whether its constructor has run, which sets the two signals, and `m_handler`.
pub record BackTrace : Type 0 where
  pub is_set : Bool
  pub handler : Option (Bytes → Bytes)

abbrev pub no_back_trace : BackTrace
no_back_trace = record { is_set = false; handler = none }

unfoldable pub install_handler : (Bytes → Bytes) → BackTrace → BackTrace
install_handler h b = record { is_set = true; handler = some h }

-- The loop over the addresses, from `i` on.
pub frame_lines : ℕ → List Bytes → Bytes
frame_lines i [] = []
frame_lines i (s ∷ ss) =
    to_string i ++ (codes ": " ++ (s ++ (codes "\n" ++ frame_lines (i + 1) ss)))

abbrev pub trace_head : Bytes → ℕ → Bytes
trace_head name count =
    codes "\nSIGNAL: "
    ++ (name
        ++ (codes "\nNUMBER OF ADDRESSES: "
            ++ (to_string count ++ codes "\n======= Stack Trace =======\n")))

-- How the process ends: what the handler has written, and the status. `crashes`: the handler is called
-- and there is none.
pub data Ending : Type 0 where
  exits : Bytes → ℤ → Ending
  crashes : Ending

abbrev pub hand_over : Option (Bytes → Bytes) → Bytes → Ending
hand_over none text = crashes
hand_over (some h) text = exits (h text) (negsuc 0)

-- `signalHandler`: the name of the signal, and the symbols of the addresses, if there is memory for them.
unfoldable pub signal_trace : Bytes → ℕ → Option (List Bytes) → BackTrace → Ending
unfolding frame_lines
signal_trace name count none b = exits [] (negsuc 1)
signal_trace name count (some symbols) b =
    hand_over b.handler (trace_head name count ++ (frame_lines 0 symbols ++ codes "\n"))

-- How many lines a text ends.
abbrev newlines : Bytes → ℕ
newlines [] = 0
newlines (c ∷ cs) = (if c == 10 then 1 else 0) + newlines cs

newlines-append : (xs ys : Bytes) → newlines (xs ++ ys) ≡ newlines xs + newlines ys
newlines-append [] ys = omega arith
newlines-append (x ∷ xs) ys = omega (arith, newlines-append xs ys)

digits-newlines : (xs : Bytes) → All (λ c. is_digit c ≡ true) xs → newlines xs ≡ 0
digits-newlines [] h = refl
digits-newlines (x ∷ xs) h = ground (arith, h.0, digits-newlines xs h.1)

number-newlines : (n : ℕ) → newlines (to_string n) ≡ 0
number-newlines n = digits-newlines (to_string n) (to_string-IsNumeral n).are_digits

frame_lines-newlines :
    (i : ℕ) (ss : List Bytes)
    → All (λ s. newlines s ≡ 0) ss
    → newlines (frame_lines i ss) ≡ length ss
unfolding frame_lines
frame_lines-newlines i [] h = refl
frame_lines-newlines i (s ∷ ss) h =
    let rest = frame_lines (i + 1) ss in
    omega (
      arith,
      newlines-append (to_string i) (codes ": " ++ (s ++ (codes "\n" ++ rest))),
      newlines-append s (codes "\n" ++ rest),
      number-newlines i,
      h.0,
      frame_lines-newlines (i + 1) ss h.1,
    )

trace_head-newlines :
    (name : Bytes) (count : ℕ) → newlines name ≡ 0 → newlines (trace_head name count) ≡ 4
trace_head-newlines name count h =
    let tail = codes "\n======= Stack Trace =======\n" in
    omega (
      arith,
      newlines-append name (codes "\nNUMBER OF ADDRESSES: " ++ (to_string count ++ tail)),
      newlines-append (to_string count) tail,
      number-newlines count,
      h,
    )

-- With a handler installed, and where the symbols are found: the handler gets one line for each address,
-- behind three lines and an empty one, and in front of an empty one, if no name has a line of its own; and
-- the process ends with -1.
signal_trace_lem :
    (h : Bytes → Bytes) (b : BackTrace) (name : Bytes) (symbols : List Bytes)
    → newlines name ≡ 0
    → All (λ s. newlines s ≡ 0) symbols
    → (text : Bytes) × (signal_trace name (length symbols) (some symbols) (install_handler h b)
        ≡ exits (h text) (negsuc 0))
      × (newlines text ≡ 5 + length symbols)
unfolding signal_trace install_handler
signal_trace_lem h b name symbols plain plains =
    let head = trace_head name (length symbols) in
    let lines = frame_lines 0 symbols in
    (
      head ++ (lines ++ codes "\n"),
      refl,
      omega (
        arith,
        newlines-append head (lines ++ codes "\n"),
        newlines-append lines (codes "\n"),
        trace_head-newlines name (length symbols) plain,
        frame_lines-newlines 0 symbols plains,
      ),
    )
