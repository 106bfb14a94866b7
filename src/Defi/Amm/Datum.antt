-- ===== src/Defi/Amm/Datum.antt =====
-- crates/qv-defi/src/amm.rs: the canonical bytes of a pool datum, in both directions.
use mathlib.Core.List.{append-nil}
use l1_chain.Base.{
  ℕ, zero, suc, take-append-drop, length-take, length-drop, All-take, All-drop, Bool-cases, inl,
  inr, le→leb, ◌+◌, ◌^◌, ◌≤◌, ◌<◌, ◌≡◌, arith, List, [], ◌∷◌, ◌++◌, length, take, drop, refl, the,
  ap, ◌∙◌, sym, length-append, take-append, true, false, leb, not, ◌==◌,
}
use l1_chain.Base.Bytes.{IsBytes, to_le, from_le, from_le-to_le, to_le-from_le}
use l1_chain.Base.Outcome.{Outcome, ok, err, ok_inj}
use l1_chain.Base.Word.{max_u64}
use l1_chain.Defi.Amm.{
  AmmError, datum_error, PoolDatum, pool_to_bytes, pool_from_bytes, read_field, pool_datum_len,
}

-- The fields are within their widths.
pub record FitsDatum (d : PoolDatum) : Type 0 where
  pub a_len : length d.token_a_id ≡ 32
  pub b_len : length d.token_b_id ≡ 32
  pub ra_fits : d.reserve_a ≤ max_u64
  pub rb_fits : d.reserve_b ≤ max_u64
  pub lp_fits : d.lp_total ≤ max_u64
  pub fee_fits : d.fee_bps < 2 ^ 16

drop-append_add :
    (xs rest : List ℕ) (k o : ℕ) → length xs ≡ k → drop (k + o) (xs ++ rest) ≡ drop o rest
drop-append_add [] rest k o h = ap (λ t. drop t rest) (omega arith)
drop-append_add (x ∷ xs) rest k o h =
    ap (λ t. drop t (x ∷ (xs ++ rest))) (the (k + o ≡ suc (length xs + o)) (omega arith))
    ∙ drop-append_add xs rest (length xs) o refl

-- Bytes in front of a field only shift its offset.
read_field-skip :
    (xs rest : List ℕ) (k o n : ℕ)
    → length xs ≡ k
    → read_field (xs ++ rest) (k + o) n ≡ read_field rest o n
unfolding read_field
read_field-skip xs rest k o n h =
    let same : leb (k + o + n) (length (xs ++ rest)) ≡ leb (o + n) (length rest) =
      ground (arith, length-append xs rest) in
    rw same (rw (drop-append_add xs rest k o h) refl)

read_field-first :
    (field rest : List ℕ) (n : ℕ) → length field ≡ n → read_field (field ++ rest) 0 n ≡ ok field
unfolding read_field
read_field-first field rest n h =
    let fits : leb (0 + n) (length (field ++ rest)) ≡ true =
      ground (arith, length-append field rest) in
    let taken : take n (field ++ rest) ≡ field =
      ap (λ k. take k (field ++ rest)) (sym h) ∙ take-append field rest in
    rw fits (rw taken refl)

-- A datum whose fields are within their widths is read back from its canonical bytes, of which
-- there are 90.
pub pool_from_bytes-pool_to_bytes :
    (d : PoolDatum)
    → FitsDatum d
    → (pool_from_bytes (pool_to_bytes d) ≡ ok d) × (length (pool_to_bytes d) ≡ 90)
unfolding pool_from_bytes pool_to_bytes
pool_from_bytes-pool_to_bytes d fits =
    let a = d.token_a_id in
    let b = d.token_b_id in
    let ra = to_le 8 d.reserve_a in
    let rb = to_le 8 d.reserve_b in
    let lp = to_le 8 d.lp_total in
    let fee = to_le 2 d.fee_bps in
    let bytes = a ++ (b ++ (ra ++ (rb ++ (lp ++ fee)))) in
    let len : length bytes ≡ 90 = omega (
      arith,
      length-append a (b ++ (ra ++ (rb ++ (lp ++ fee)))),
      length-append b (ra ++ (rb ++ (lp ++ fee))),
      length-append ra (rb ++ (lp ++ fee)),
      length-append rb (lp ++ fee),
      length-append lp fee,
      fits.a_len,
      fits.b_len,
    ) in
    let skip_a =
      λ (o n : ℕ). read_field-skip a (b ++ (ra ++ (rb ++ (lp ++ fee)))) 32 o n fits.a_len in
    let skip_b = λ (o n : ℕ). read_field-skip b (ra ++ (rb ++ (lp ++ fee))) 32 o n fits.b_len in
    let skip_ra = λ (o n : ℕ). read_field-skip ra (rb ++ (lp ++ fee)) 8 o n refl in
    let skip_rb = λ (o n : ℕ). read_field-skip rb (lp ++ fee) 8 o n refl in
    let get_a : read_field bytes 0 32 ≡ ok a = read_field-first a _ 32 fits.a_len in
    let get_b : read_field bytes 32 32 ≡ ok b =
      skip_a 0 32 ∙ read_field-first b (ra ++ (rb ++ (lp ++ fee))) 32 fits.b_len in
    let get_ra : read_field bytes 64 8 ≡ ok ra =
      skip_a 32 8 ∙ skip_b 0 8 ∙ read_field-first ra (rb ++ (lp ++ fee)) 8 refl in
    let get_rb : read_field bytes 72 8 ≡ ok rb =
      skip_a 40 8 ∙ skip_b 8 8 ∙ skip_ra 0 8 ∙ read_field-first rb (lp ++ fee) 8 refl in
    let get_lp : read_field bytes 80 8 ≡ ok lp =
      skip_a 48 8 ∙ skip_b 16 8 ∙ skip_ra 8 8 ∙ skip_rb 0 8 ∙ read_field-first lp fee 8 refl in
    let get_fee : read_field bytes 88 2 ≡ ok fee =
      skip_a 56 2
      ∙ skip_b 24 2
      ∙ skip_ra 16 2
      ∙ skip_rb 8 2
      ∙ read_field-skip lp fee 8 0 2 refl
      ∙ ap (λ xs. read_field xs 0 2) (sym (append-nil fee))
      ∙ read_field-first fee [] 2 refl in
    let exact : not (length bytes == pool_datum_len) ≡ false = ground (arith, len) in
    (
      rw exact (
          rw get_a (
            rw get_b (
              rw get_ra (
                rw get_rb (
                  rw get_lp (
                    rw get_fee (
                      rw
                        (
                          from_le-to_le 8 d.reserve_a (omega (arith, fits.ra_fits)),
                          from_le-to_le 8 d.reserve_b (omega (arith, fits.rb_fits)),
                          from_le-to_le 8 d.lp_total (omega (arith, fits.lp_fits)),
                          from_le-to_le 2 d.fee_bps (omega (arith, fits.fee_fits)),
                        )
                        refl))))))),
      len,
    )

read_field-take :
    (bytes : List ℕ) (o n : ℕ)
    → o + n ≤ length bytes
    → read_field bytes o n ≡ ok (take n (drop o bytes))
unfolding read_field
read_field-take bytes o n h = rw (le→leb (o + n) (length bytes) h) refl

drop_nil : (n : ℕ) → drop n [] ≡ the (List ℕ) []
drop_nil zero = refl
drop_nil (suc n) = refl

drop_all : (xs : List ℕ) (n : ℕ) → length xs ≤ n → drop n xs ≡ []
drop_all [] n h = drop_nil n
drop_all (x ∷ xs) zero h = absurd (omega arith)
drop_all (x ∷ xs) (suc n) h = drop_all xs n (omega arith)

drop-drop : (m n : ℕ) (xs : List ℕ) → drop n (drop m xs) ≡ drop (m + n) xs
drop-drop zero n xs = ap (λ t. drop t xs) (omega arith)
drop-drop (suc m) n [] = drop_nil n ∙ sym (drop_nil (suc m + n))
drop-drop (suc m) n (x ∷ xs) =
    drop-drop m n xs ∙ ap (λ t. drop t (x ∷ xs)) (the (suc (m + n) ≡ suc m + n) (omega arith))

-- The bytes from an offset on: a field, and the bytes from behind it on
peel : (bytes : List ℕ) (o n : ℕ) → take n (drop o bytes) ++ drop (o + n) bytes ≡ drop o bytes
peel bytes o n =
    ap (λ t. take n (drop o bytes) ++ t) (sym (drop-drop o n bytes))
    ∙ take-append-drop n (drop o bytes)

-- A number field is written back as the bytes that it was read from.
field_back :
    (bytes : List ℕ) (o n : ℕ)
    → IsBytes bytes
    → o + n ≤ length bytes
    → to_le n (from_le (take n (drop o bytes))) ≡ take n (drop o bytes)
field_back bytes o n valid fits =
    let field = take n (drop o bytes) in
    let len : length field ≡ n = omega (arith, length-take n (drop o bytes), length-drop o bytes) in
    ap (λ k. to_le k (from_le field)) (sym len)
    ∙ to_le-from_le field (All-take _ n (drop o bytes) (All-drop _ o bytes valid))

-- The datum that 90 bytes decode to
datum_of : List ℕ → PoolDatum
datum_of bytes = record {
  token_a_id = take 32 (drop 0 bytes);
  token_b_id = take 32 (drop 32 bytes);
  reserve_a = from_le (take 8 (drop 64 bytes));
  reserve_b = from_le (take 8 (drop 72 bytes));
  lp_total = from_le (take 8 (drop 80 bytes));
  fee_bps = from_le (take 2 (drop 88 bytes));
}

pool_from_bytes-datum_of :
    (bytes : List ℕ) → length bytes ≡ 90 → pool_from_bytes bytes ≡ ok (datum_of bytes)
unfolding pool_from_bytes datum_of
pool_from_bytes-datum_of bytes len =
    rw (the (not (length bytes == pool_datum_len) ≡ false) (ground (arith, len))) (
      rw (read_field-take bytes 0 32 (omega arith)) (
        rw (read_field-take bytes 32 32 (omega arith)) (
          rw (read_field-take bytes 64 8 (omega arith)) (
            rw (read_field-take bytes 72 8 (omega arith)) (
              rw (read_field-take bytes 80 8 (omega arith))
                (rw (read_field-take bytes 88 2 (omega arith)) refl))))))

bytes_back :
    (bytes : List ℕ) → IsBytes bytes → length bytes ≡ 90 → pool_to_bytes (datum_of bytes) ≡ bytes
unfolding pool_to_bytes datum_of
bytes_back bytes valid len =
    let end_ : take 2 (drop 88 bytes) ≡ drop 88 bytes =
      sym (append-nil _)
      ∙ ap (λ t. take 2 (drop 88 bytes) ++ t) (sym (drop_all bytes 90 (omega arith)))
      ∙ peel bytes 88 2 in
    let at = λ (o n : ℕ). take n (drop o bytes) in
    let number = λ (o n : ℕ). to_le n (from_le (at o n)) in
    let join = λ (ra rb lp fee : List ℕ). at 0 32 ++ (at 32 32 ++ (ra ++ (rb ++ (lp ++ fee)))) in
    ap (λ t. join t (number 72 8) (number 80 8) (number 88 2))
      (field_back bytes 64 8 valid (omega arith))
    ∙ ap (λ t. join (at 64 8) t (number 80 8) (number 88 2))
        (field_back bytes 72 8 valid (omega arith))
    ∙ ap (λ t. join (at 64 8) (at 72 8) t (number 88 2)) (field_back bytes 80 8 valid (omega arith))
    ∙ ap (λ t. join (at 64 8) (at 72 8) (at 80 8) t)
        (field_back bytes 88 2 valid (omega arith) ∙ end_)
    ∙ ap (λ t. at 0 32 ++ (at 32 32 ++ (at 64 8 ++ (at 72 8 ++ t)))) (peel bytes 80 8)
    ∙ ap (λ t. at 0 32 ++ (at 32 32 ++ (at 64 8 ++ t))) (peel bytes 72 8)
    ∙ ap (λ t. at 0 32 ++ (at 32 32 ++ t)) (peel bytes 64 8)
    ∙ ap (λ t. at 0 32 ++ t) (peel bytes 32 32)
    ∙ take-append-drop 32 bytes

exact_len : (n : ℕ) → not (n == pool_datum_len) ≡ false → n ≡ 90
exact_len n h = ground arith

-- Every byte string that decodes to a datum has 90 bytes and is the datum's canonical encoding.
pub pool_to_bytes-pool_from_bytes :
    (bytes : List ℕ) (d : PoolDatum)
    → IsBytes bytes
    → pool_from_bytes bytes ≡ ok d
    → (length bytes ≡ 90) × (pool_to_bytes d ≡ bytes)
unfolding pool_from_bytes
pool_to_bytes-pool_from_bytes bytes d valid h =
    elim (Bool-cases (not (length bytes == pool_datum_len))) [
      | inl wrong ↦
          let bad : ◌≡◌ {A = Outcome {0, 0} AmmError PoolDatum} (err datum_error) (ok d) =
            rw wrong at h in
          cc
      | inr right ↦
          let len : length bytes ≡ 90 = exact_len (length bytes) right in
          let same : datum_of bytes ≡ d = ok_inj (sym (pool_from_bytes-datum_of bytes len) ∙ h) in
          (len, ap pool_to_bytes (sym same) ∙ bytes_back bytes valid len)
    ]
