-- ===== src/Taxid/Provider/Layout.antt =====
-- When a tax id is generated, and what stands where in it.
use moadian.Base.{
  ℕ, ◌+◌, ◌≤◌, ◌<◌, ◌≡◌, refl, sym, ◌∙◌, ap, Bool, true, false, ◌||◌, [], ◌∷◌, ◌++◌, map, length,
  take, drop, all, all-append, length-append, length-map, take-append_exact, drop-append_exact,
  is_empty, if◌then◌else◌, Text, is_ascii_digit, is_alnum, is_upper, to_upper, ok, arith, >>=-eq-ok,
}
use moadian.Base.Int.{ℤ, pos, negsuc, pos_part}
use native.Mathlib.Nat.{zero-add, suc-add}
use moadian.Base.{zero, suc}
use moadian.Base.Format.{in_base, padded}
use moadian.Base.Format.Laws.{length-padded, hex-padded, decimal-padded, decimal-in_base, padded-le}
use moadian.Taxid.Verhoeff.{check_digit, validate}
use moadian.Taxid.Verhoeff.Detection.{validate-check_digit, check_digit-length}
use moadian.Taxid.Provider.{
  Calendar, tax_id_length, max_serial, max_day_range, day_range, decimalise, is_memory_id,
  validate_memory_id, validate_serial, validate_day, control, generate_tax_id, invoice_serial_hex,
}

-- Characters of the finished id: digits and capitals.
abbrev pub is_tax_id_char : ℕ → Bool
is_tax_id_char ch = is_ascii_digit ch || is_upper ch

module _ (c : Calendar) where
  -- The inputs of a generated id, and the id built from them.
  pub record Built (memory_id : Text) (serial : ℤ) (issued_at : c.Moment) (x : Text) : Type 0 where
    pub day : ℕ
    pub number : ℕ
    pub digit : Text
    memory_shape : is_memory_id memory_id ≡ true
    pub serial_is : serial ≡ pos number
    number_fits : number ≤ max_serial
    pub day_is : day_range c issued_at ≡ pos day
    pub day_fits : day ≤ max_day_range
    checked : check_digit (control (map to_upper memory_id) day number) ≡ ok digit
    pub built : x ≡ map to_upper memory_id ++ (padded 5 16 day ++ (padded 10 16 number ++ digit))

  memory-inversion :
      (m m' : Text) → validate_memory_id m ≡ ok m' → (is_memory_id m ≡ true) × (m' ≡ map to_upper m)
  unfolding validate_memory_id
  memory-inversion m m' h = ground arith

  serial-inversion : (s : ℤ) (n : ℕ) → validate_serial s ≡ ok n → (s ≡ pos n) × (n ≤ max_serial)
  unfolding validate_serial
  serial-inversion (pos k) n h = ground arith
  serial-inversion (negsuc k) n h = cc

  day-inversion : (s : ℤ) (n : ℕ) → validate_day s ≡ ok n → (s ≡ pos n) × (n ≤ max_day_range)
  unfolding validate_day
  day-inversion (pos k) n h = ground arith
  day-inversion (negsuc k) n h = cc

  assemble :
      (m : Text) (s : ℤ) (t : c.Moment) (x m' : Text) (n d : ℕ) (k : Text)
      → validate_memory_id m ≡ ok m'
      → validate_serial s ≡ ok n
      → validate_day (day_range c t) ≡ ok d
      → check_digit (control m' d n) ≡ ok k
      → x ≡ m' ++ (padded 5 16 d ++ (padded 10 16 n ++ k))
      → Built m s t x
  assemble m s t x m' n d k hm hs hd hk hx =
      let im = memory-inversion m m' hm in
      let is = serial-inversion s n hs in
      let id = day-inversion (day_range c t) d hd in
      record {
        day = d;
        number = n;
        digit = k;
        memory_shape = im.0;
        serial_is = is.0;
        number_fits = is.1;
        day_is = id.0;
        day_fits = id.1;
        checked = cc (im.1);
        built = cc (im.1);
      }

  -- A generated id shows how it was built.
  pub generate_tax_id-Built :
      (m : Text) (s : ℤ) (t : c.Moment) (x : Text) → generate_tax_id c m s t ≡ ok x → Built m s t x
  unfolding generate_tax_id
  generate_tax_id-Built m s t x h =
      let a = >>=-eq-ok (validate_memory_id m) _ h in
      let b = >>=-eq-ok (validate_serial s) _ a.2 in
      let d = >>=-eq-ok (validate_day (day_range c t)) _ b.2 in
      let e = >>=-eq-ok (check_digit (control a.0 d.0 b.0)) _ d.2 in
      assemble m s t x a.0 b.0 d.0 e.0 a.1 b.1 d.1 e.1 (cc (e.2))

decimalise-digits : (m : Text) → all is_ascii_digit (decimalise m) ≡ true
unfolding decimalise
decimalise-digits [] = refl
decimalise-digits (ch ∷ m) =
    rw
      (
        all-append is_ascii_digit (if is_ascii_digit ch then ch ∷ [] else in_base 10 ch)
            (decimalise m),
        decimalise-digits m,
      )
      (ground (arith, decimal-in_base ch))

-- The control text is a number, so it has a check digit.
pub control_IsNumber :
    (m : Text) (d n : ℕ)
    → (is_empty (control m d n) ≡ false) × (all is_ascii_digit (control m d n) ≡ true)
unfolding control
control_IsNumber m d n = (
  filled (decimalise m ++ (padded 6 10 d ++ padded 12 10 n)) (
      omega (
        arith,
        length-append (decimalise m) (padded 6 10 d ++ padded 12 10 n),
        length-append (padded 6 10 d) (padded 12 10 n),
        padded-le 12 10 n,
      )),
  rw (
    all-append is_ascii_digit (decimalise m) (padded 6 10 d ++ padded 12 10 n),
    all-append is_ascii_digit (padded 6 10 d) (padded 12 10 n),
    decimalise-digits m,
    decimal-padded 6 d,
    decimal-padded 12 n,
  ),
)
  where
    filled : (t : Text) → 0 < length t → is_empty t ≡ false
    filled [] h = absurd (omega arith)
    filled (x ∷ t) h = refl

pos_injective : {a b : ℕ} → pos a ≡ pos b → a ≡ b
pos_injective e = ap pos_part e

drop-drop : (a b : ℕ) (t : Text) → drop b (drop a t) ≡ drop (a + b) t
drop-drop zero b t = rw zero-add
drop-drop (suc a) zero [] = rw suc-add
drop-drop (suc a) (suc b) [] = rw suc-add
drop-drop (suc a) b (x ∷ t) = rw suc-add (drop-drop a b t)

upper_char : (ch : ℕ) → is_alnum ch ≡ true → is_tax_id_char (to_upper ch) ≡ true
upper_char ch h = ground arith

upper_chars : (m : Text) → all is_alnum m ≡ true → all is_tax_id_char (map to_upper m) ≡ true
upper_chars [] h = refl
upper_chars (ch ∷ m) h = ground (arith, upper_char ch, upper_chars m)

weaken : (t : Text) → all is_ascii_digit t ≡ true → all is_tax_id_char t ≡ true
weaken [] h = refl
weaken (ch ∷ t) h = ground (arith, weaken t)

module _ (c : Calendar) (m : Text) (s : ℤ) (t : c.Moment) (x : Text) (v : Built c m s t x) where
  open v use {day, number, digit}

  memory-length : length (map to_upper m) ≡ 6
  memory-length = omega (arith, length-map m to_upper, shape)
    where
      shape : length m ≡ 6
      shape = ground (arith, v.memory_shape)

  day-length : length (padded 5 16 day) ≡ 5
  day-length = length-padded 4 16 day (omega arith) (omega (arith, v.day_fits))

  number-length : length (padded 10 16 number) ≡ 10
  number-length = length-padded 9 16 number (omega arith) (omega (arith, v.number_fits))

  digit-length : length digit ≡ 1
  digit-length = (check_digit-length _ digit v.checked).0

  -- The four fields, cut out of the id again.
  pub memory_field : take 6 x ≡ map to_upper m
  memory_field = rw v.built (take-append_exact 6 (map to_upper m) _ memory-length)

  after_memory : drop 6 x ≡ padded 5 16 day ++ (padded 10 16 number ++ digit)
  after_memory = rw v.built (drop-append_exact 6 (map to_upper m) _ memory-length)

  pub day_field : take 5 (drop 6 x) ≡ padded 5 16 day
  day_field = rw after_memory (take-append_exact 5 (padded 5 16 day) _ day-length)

  after_day : drop 5 (drop 6 x) ≡ padded 10 16 number ++ digit
  after_day = rw after_memory (drop-append_exact 5 (padded 5 16 day) _ day-length)

  pub number_field : take 10 (drop 5 (drop 6 x)) ≡ padded 10 16 number
  number_field = rw after_day (take-append_exact 10 (padded 10 16 number) _ number-length)

  digit_field : drop 10 (drop 5 (drop 6 x)) ≡ digit
  digit_field = rw after_day (drop-append_exact 10 (padded 10 16 number) _ number-length)

  length-built : length x ≡ tax_id_length
  length-built = rw v.built (
      omega (
        arith,
        length-append (map to_upper m) (padded 5 16 day ++ (padded 10 16 number ++ digit)),
        length-append (padded 5 16 day) (padded 10 16 number ++ digit),
        length-append (padded 10 16 number) digit,
        memory-length,
        day-length,
        number-length,
        digit-length,
      ))

  -- The check digit validates behind the control text.
  control_validates : validate (control (map to_upper m) day number ++ digit) ≡ ok true
  control_validates =
      let text = control (map to_upper m) day number in
      let n = control_IsNumber (map to_upper m) day number in
      let k = validate-check_digit text n.0 n.1 in grind (arith, k.1, k.2, v.checked)

  characters : all is_tax_id_char x ≡ true
  characters = rw (
    v.built,
    all-append is_tax_id_char (map to_upper m) (padded 5 16 day ++ (padded 10 16 number ++ digit)),
    all-append is_tax_id_char (padded 5 16 day) (padded 10 16 number ++ digit),
    all-append is_tax_id_char (padded 10 16 number) digit,
    hex-padded 5 day,
    hex-padded 10 number,
    weaken digit (check_digit-length _ digit v.checked).1,
    upper_chars m (ground (arith, v.memory_shape)),
  )

  inno_lem : invoice_serial_hex s ≡ ok (take 10 (drop 5 (drop 6 x)))
  unfolding invoice_serial_hex validate_serial
  inno_lem = rw (number_field, v.serial_is) (ground (arith, v.number_fits))

-- A generated id has 22 characters, all of them digits or capital letters; characters 12 to 21 are
-- the `inno` serial of the same number; and its last character is the check digit of the control
-- text of the same day and number, so that the control text with it appended validates.
pub generate_tax_id-layout :
    (c : Calendar) (m : Text) (s : ℤ) (t : c.Moment) (x : Text) (d n : ℕ)
    → generate_tax_id c m s t ≡ ok x
    → day_range c t ≡ pos d
    → s ≡ pos n
    → (length x ≡ tax_id_length)
      × (all is_tax_id_char x ≡ true)
      × (invoice_serial_hex s ≡ ok (take 10 (drop 11 x)))
      × (validate (control (map to_upper m) d n ++ drop 21 x) ≡ ok true)
generate_tax_id-layout c m s t x d n h hd hn =
    let v = generate_tax_id-Built c m s t x h in
    let same_day : v.day ≡ d = pos_injective (sym v.day_is ∙ hd) in
    let same_number : v.number ≡ n = pos_injective (sym v.serial_is ∙ hn) in
    (
      length-built c m s t x v,
      characters c m s t x v,
      rw (← drop-drop 6 5 x) (inno_lem c m s t x v),
      rw
          (
            ← same_day,
            ← same_number,
            ← drop-drop 11 10 x,
            ← drop-drop 6 5 x,
            digit_field c m s t x v,
          )
          (control_validates c m s t x v),
    )
