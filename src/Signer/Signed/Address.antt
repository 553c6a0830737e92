-- ===== src/Signer/Signed/Address.antt =====
-- The strict address check (crates/ethernal-signer/src/lib.rs). An error message is a constructor
-- with the values that it shows.
use eth_utils.Prelude.{
  ℕ, ◌≡◌, ap, ◌∙◌, inl, inr, Option, none, some, Result, ok, err, ok-injective, err-ne-ok,
  >>=-eq-ok, map_err-eq-ok, ◌>>=◌, map_err, length, Bool-cases, ◌==◌, ==_iff, if◌then◌else◌,
}
use eth_utils.Prelude.Bytes.{Bytes, text, strip_prefix, bytes_eq, bytes_eq_iff}
use eth_utils.Hex.{Hex}
use eth_utils.Signer.Parse.{hex_to_address}
use eth_utils.Signer.Signed.{Curve, eip55_checksum}
use eth_utils.Signer.Signed.Checksum.{hex_to_address-eip55_checksum}

pub data AddressError (F : Type 0) : Type 0 where
  invalid_address_hex : F → AddressError F
  invalid_address_length : ℕ → AddressError F
  checksum_mismatch : AddressError F

unfoldable pub or_whole : Option Bytes → Bytes → Bytes
or_whole none s = s
or_whole (some t) s = t

module _ {F : Type 0} (hex : Hex F) (curve : Curve) where
  unfoldable pub check_address : Bytes → Bytes → Result (AddressError F) Bytes
  check_address s decoded =
      if length decoded == 20
      then (if bytes_eq s (eip55_checksum hex curve decoded)
          then ok decoded
          else err checksum_mismatch)
      else err (invalid_address_length (length decoded))

  unfoldable pub validate_eip55_address : Bytes → Result (AddressError F) Bytes
  unfolding check_address or_whole
  validate_eip55_address s =
      map_err invalid_address_hex (hex.decode (or_whole (strip_prefix (text "0x") s) s))
      >>= check_address s

  checked :
      (s b addr : Bytes)
      → check_address s b ≡ ok addr
      → (length addr ≡ 20) × (b ≡ addr) × (s ≡ eip55_checksum hex curve addr)
  unfolding check_address
  checked s b addr h = elim (Bool-cases (length b == 20)) [
    | inr off ↦ absurd (err-ne-ok (rw off at h))
    | inl sized ↦ elim (Bool-cases (bytes_eq s (eip55_checksum hex curve b))) [
      | inr wrong ↦ absurd (err-ne-ok (rw (sized, wrong) at h))
      | inl same ↦
          let e : b ≡ addr = ok-injective (rw (sized, same) at h) in
          (
            rw⁻¹ e ((==_iff (length b) 20).0 sized),
            e,
            (bytes_eq_iff s (eip55_checksum hex curve b)).0 same ∙ ap (eip55_checksum hex curve) e,
          )
    ]
  ]

  -- A text that the strict check accepts is the checksummed text of the address that is returned,
  -- which has 20 bytes, and the signer's lenient reader reads the same address from it.
  pub validate_eip55_address-hex_to_address :
      (s addr : Bytes)
      → validate_eip55_address s ≡ ok addr
      → (length addr ≡ 20) × (s ≡ eip55_checksum hex curve addr) × (hex_to_address s ≡ addr)
  unfolding validate_eip55_address
  validate_eip55_address-hex_to_address s addr h =
      let (b, decoded, done) =
        >>=-eq-ok
          (map_err invalid_address_hex (hex.decode (or_whole (strip_prefix (text "0x") s) s)))
          (check_address s) h in
      let (n, same, e) = checked s b addr done in
      (
        n,
        e,
        ap hex_to_address e
            ∙ hex_to_address-eip55_checksum hex curve addr n (
                rw⁻¹ same
                  (hex.decode_shape (or_whole (strip_prefix (text "0x") s) s) b
                    (map_err-eq-ok _ _ decoded)).0),
      )
