-- ===== src/Core/Upid/RoundTrip.antt =====
-- src/core/tasks.ts, parseUpid: identifiers put together from their parts.
use pve_agent.Base.{
  ltb, ◌==◌, if◌then◌else◌, ==_iff, Bool-cases, length, all, length-append, All, Text, codes,
  text_eq_refl, join, is_space, is_digit, is_alpha, is_alnum, ok, Lacks, split-join, all-append, ℕ,
  zero, suc, ◌+◌, ◌-◌, ◌*◌, ◌/◌, ◌%◌, ◌^◌, ◌<◌, ◌≡◌, refl, sym, ap, ap₂, ◌∙◌, subst, inl, inr, Bool,
  true, false, ◌&&◌, ◌||◌, List, [], ◌∷◌, ◌++◌, arith,
}
use native.Mathlib.Nat.{pow-succ'}
use pve_agent.Core.Upid.{
  is_hex, hex_value, is_node_name, node_rest, is_hex_field, is_name_field, is_name_field1,
  fields_ok, upid_of, or_throw, parse_upid,
}

abbrev hex_char : ℕ → ℕ
hex_char d = if ltb d 10 then b'0' + d else b'A' + (d - 10)

-- A number in `k` hexadecimal digits.
unfoldable pub hex_digits : ℕ → ℕ → Text
hex_digits zero n = []
hex_digits (suc k) n = hex_digits k (n / 16) ++ hex_char (n % 16) ∷ []

hex_value-append :
    (s : Text) (m d : ℕ) → d < 16 → hex_value m (s ++ hex_char d ∷ []) ≡ hex_value m s * 16 + d
unfolding hex_value
hex_value-append [] m d h = ground arith
hex_value-append (c ∷ s) m d h = hex_value-append s _ d h

hex_value-hex_digits : (k n : ℕ) → n < 16 ^ k → hex_value 0 (hex_digits k n) ≡ n
unfolding hex_digits hex_value
hex_value-hex_digits zero n h = omega arith
hex_value-hex_digits (suc k) n h =
    hex_value-append (hex_digits k (n / 16)) 0 (n % 16) (omega arith)
    ∙ ap (λ m. m * 16 + n % 16) (hex_value-hex_digits k (n / 16) (omega (arith, pow-succ' 16 k)))
    ∙ omega arith

length-hex_digits : (k n : ℕ) → length (hex_digits k n) ≡ k
unfolding hex_digits
length-hex_digits zero n = refl
length-hex_digits (suc k) n = omega (
  arith,
  length-append (hex_digits k (n / 16)) (hex_char (n % 16) ∷ []),
  length-hex_digits k (n / 16),
)

is_hex-hex_char : (d : ℕ) → d < 16 → is_hex (hex_char d) ≡ true
unfolding is_hex is_digit
is_hex-hex_char d h = ground arith

hex_digits-is_hex : (k n : ℕ) → all is_hex (hex_digits k n) ≡ true
unfolding hex_digits
hex_digits-is_hex zero n = refl
hex_digits-is_hex (suc k) n =
    all-append is_hex (hex_digits k (n / 16)) (hex_char (n % 16) ∷ [])
    ∙ ap₂ (λ a b. a && (b && true)) (hex_digits-is_hex k (n / 16))
        (is_hex-hex_char (n % 16) (omega arith))

-- A character test that the colon fails keeps the colon out.
all-Lacks : (p : ℕ → Bool) (s : Text) → p b':' ≡ false → all p s ≡ true → Lacks b':' s
all-Lacks p [] h k = refl
all-Lacks p (c ∷ s) h k = elim (Bool-cases (c == b':')) [
  | inl colon ↦
      let bad : p c ≡ false = subst (λ d. p d ≡ false) (sym ((==_iff c b':').0 colon)) h in
      absurd (ground (arith, bad))
  | inr other ↦ rw other (all-Lacks p s h (ground arith))
]

and_both : (a b : Bool) → (a && b) ≡ true → (a ≡ true) × (b ≡ true)
and_both true b h = (refl, h)
and_both false b h = absurd (ground arith)

node_rest-all : (s : Text) → node_rest s ≡ true → all (λ c. is_alnum c || c == b'-') s ≡ true
unfolding node_rest
node_rest-all [] h = refl
node_rest-all (c ∷ []) h = ground arith
node_rest-all (c ∷ d ∷ s) h = ground (arith, node_rest-all (d ∷ s))

node_name-Lacks : (s : Text) → is_node_name s ≡ true → Lacks b':' s
unfolding is_node_name is_alnum is_alpha is_digit
node_name-Lacks [] h = refl
node_name-Lacks (c ∷ s) h =
    all-Lacks (λ c. is_alnum c || c == b'-') (c ∷ s) refl
      (ground (arith, h, node_rest-all s (and_both (is_alnum c) (node_rest s) h).1))

hex_digits-Lacks : (k n : ℕ) → Lacks b':' (hex_digits k n)
unfolding is_hex is_digit
hex_digits-Lacks k n = all-Lacks is_hex (hex_digits k n) refl (hex_digits-is_hex k n)

name_field-Lacks : (s : Text) → is_name_field s ≡ true → Lacks b':' s
unfolding is_name_field is_space
name_field-Lacks s h = all-Lacks _ s refl h

name_field1-Lacks : (s : Text) → is_name_field1 s ≡ true → Lacks b':' s
name_field1-Lacks [] h = refl
name_field1-Lacks (c ∷ s) h = name_field-Lacks (c ∷ s) h

-- The nine fields of an identifier, the last one empty.
abbrev fields : (node : Text) (pid pstart start_time : ℕ) (type id user : Text) → List Text
fields node pid pstart start_time type id user =
    codes "UPID"
    ∷ node
    ∷ hex_digits 8 pid
    ∷ hex_digits 8 pstart
    ∷ hex_digits 8 start_time
    ∷ type
    ∷ id
    ∷ user
    ∷ []
    ∷ []

unfoldable pub write_upid : (node : Text) (pid pstart start_time : ℕ) (type id user : Text) → Text
unfolding join
write_upid node pid pstart start_time type id user =
    join (b':' ∷ []) (fields node pid pstart start_time type id user)

is_hex_field-hex_digits :
    (n : ℕ)
    → (is_hex_field 8 8 (hex_digits 8 n) ≡ true) × (is_hex_field 8 9 (hex_digits 8 n) ≡ true)
unfolding is_hex_field
is_hex_field-hex_digits n = rw (length-hex_digits 8 n, hex_digits-is_hex 8 n) (refl, refl)

fields_ok-fields :
    (node : Text) (pid pstart start_time : ℕ) (type id user : Text)
    → is_node_name node ≡ true
    → is_name_field1 type ≡ true
    → is_name_field id ≡ true
    → is_name_field1 user ≡ true
    → fields_ok
        (codes "UPID")
        node
        (hex_digits 8 pid)
        (hex_digits 8 pstart)
        (hex_digits 8 start_time)
        type
        id
        user
        []
      ≡ true
fields_ok-fields node pid pstart start_time type id user hn hty hi hu =
    rw
      (
        text_eq_refl (codes "UPID"),
        hn,
        (is_hex_field-hex_digits pid).0,
        (is_hex_field-hex_digits pstart).1,
        (is_hex_field-hex_digits start_time).0,
        hty,
        hi,
        hu,
      )
      refl

fields-Lacks :
    (node : Text) (pid pstart start_time : ℕ) (type id user : Text)
    → is_node_name node ≡ true
    → is_name_field1 type ≡ true
    → is_name_field id ≡ true
    → is_name_field1 user ≡ true
    → All (Lacks b':') (fields node pid pstart start_time type id user)
fields-Lacks node pid pstart start_time type id user hn hty hi hu = (
  refl,
  (
    node_name-Lacks node hn,
    (
      hex_digits-Lacks 8 pid,
      (
        hex_digits-Lacks 8 pstart,
        (
          hex_digits-Lacks 8 start_time,
          (
            name_field1-Lacks type hty,
            (name_field-Lacks id hi, (name_field1-Lacks user hu, (refl, tt))),
          ),
        ),
      ),
    ),
  ),
)

-- The identifier written from a node's name, three numbers below 2^32, a type, an id and a user is
-- read back as these parts; the names are such as the format allows.
pub parse_upid-write_upid :
    (node : Text) (pid pstart start_time : ℕ) (type id user : Text)
    → is_node_name node ≡ true
    → pid < 16 ^ 8
    → pstart < 16 ^ 8
    → start_time < 16 ^ 8
    → is_name_field1 type ≡ true
    → is_name_field id ≡ true
    → is_name_field1 user ≡ true
    → parse_upid (write_upid node pid pstart start_time type id user)
      ≡ ok (record {
        node = node;
        pid = pid;
        pstart = pstart;
        start_time = start_time;
        type = type;
        id = id;
        user = user;
        upid = write_upid node pid pstart start_time type id user;
      })
unfolding parse_upid upid_of write_upid
parse_upid-write_upid node pid pstart start_time type id user hn hp hs ht hty hi hu =
    let text = write_upid node pid pstart start_time type id user in
    ap (λ fs. or_throw text (upid_of text fs))
      (split-join b':' (codes "UPID")
        (node
          ∷ hex_digits 8 pid
          ∷ hex_digits 8 pstart
          ∷ hex_digits 8 start_time
          ∷ type
          ∷ id
          ∷ user
          ∷ []
          ∷ [])
        (fields-Lacks node pid pstart start_time type id user hn hty hi hu))
    ∙ rw
        (
          fields_ok-fields node pid pstart start_time type id user hn hty hi hu,
          hex_value-hex_digits 8 pid hp,
          hex_value-hex_digits 8 pstart hs,
          hex_value-hex_digits 8 start_time ht,
        )
        refl
