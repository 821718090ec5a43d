-- ===== src/Traffic/Checks.antt =====
-- What romdump finds in a packet is what a connection finds in it.
use openrom.Base.{
  ℕ, bit_and, ◌≡◌, refl, ap, ◌∙◌, inl, inr, true, false, not, Option, none, some, ◌==◌, ◌&&◌,
  if◌then◌else◌, Bool-cases, Option-cases,
}
use openrom.Packet.{
  Packet, flag_key, flag_encrypted, flag_alive_request, has_flag, header_checksum_ok,
  data_checksum_ok, key_byte, IsFramed, checksum_and_encrypt, IsByte,
}
use openrom.Packet.Sealing.{
  opened, stamped, checksum_and_encrypt-accepted, opened-checksum_and_encrypt,
}
use openrom.Connection.{Host, Connection, Step, abort, fault, skip, receive, receive_data}
use openrom.Traffic.{RomState, Examined, examine}

-- What a connection does with an encrypted packet that romdump examined.
pub as_examined : {S : Type 0} → Host S → Connection → Packet → S → Option Examined → Step S
as_examined h c p s none = if header_checksum_ok p then fault else abort s
as_examined h c p s (some x) =
    if x.header_ok && x.data_ok then skip h c x.packet (h.on_packet x.packet s) else abort s

-- On an encrypted packet a connection with the key of romdump hands on the data that romdump shows when
-- both of romdump's checks pass, and ends otherwise; past the key it reads when romdump does, unless
-- it refuses the header before.
pub receive-examine :
    {S : Type 0} (h : Host S) (c : Connection) (st : RomState) (p : Packet) (s : S)
    → p.p_flag ≡ flag_encrypted
    → c.key ≡ st.key
    → c.have_key ≡ true
    → receive h c p s ≡ as_examined h c p s (examine st p)
unfolding as_examined examine receive receive_data has_flag
receive-examine h c st p s flag same have = elim (Option-cases (key_byte st.key p)) [
  | inl missing ↦ elim (Bool-cases (header_checksum_ok p)) [
    | inl good ↦
        simp (no_key, encrypted, good, no_alive, have, missing)
          (rw (ap (λ k. key_byte k p) same ∙ missing, receive_data) refl)
    | inr bad ↦ simp (no_key, encrypted, bad, missing)
  ]
  | inr (key, found) ↦ elim (Bool-cases (header_checksum_ok p)) [
    | inl good ↦
        simp (no_key, encrypted, good, no_alive, have, found)
          (rw (ap (λ k. key_byte k p) same ∙ found, receive_data) refl)
    | inr bad ↦ simp (no_key, encrypted, bad, found)
  ]
]
  where
    no_key : has_flag p flag_key ≡ false
    no_key = ap (λ f. not (bit_and f 1 == 0)) flag

    no_alive : has_flag p flag_alive_request ≡ false
    no_alive = ap (λ f. not (bit_and f 4 == 0)) flag

    encrypted : (p.p_flag == flag_encrypted) ≡ true
    encrypted = ap (λ f. f == 2) flag

examine_lem :
    (st : RomState) (key : ℕ) (q : Packet)
    → q.p_flag ≡ flag_encrypted
    → key_byte st.key q ≡ some key
    → examine st q
      ≡ some (record {
        packet = opened key q;
        header_ok = header_checksum_ok q;
        data_ok = data_checksum_ok key (opened key q);
      })
unfolding examine opened
examine_lem st key q flag found = simp (encrypted, found)
  where
    encrypted : (q.p_flag == flag_encrypted) ≡ true
    encrypted = ap (λ f. f == 2) flag

-- A framed packet that was sealed under the key byte that it names is shown with the data that were
-- sealed, and passes both checks.
pub examine-sealed :
    (st : RomState) (key : ℕ) (p : Packet)
    → IsFramed p
    → p.p_flag ≡ flag_encrypted
    → key_byte st.key p ≡ some key
    → IsByte key
    → (x : Examined) × (examine st (checksum_and_encrypt key p) ≡ some x)
      × (x.packet.p_data ≡ p.p_data)
      × (x.packet.p_length ≡ p.p_length)
      × (x.header_ok ≡ true)
      × (x.data_ok ≡ true)
unfolding opened stamped checksum_and_encrypt key_byte
examine-sealed st key p f flag found byte =
    let (header, all) = checksum_and_encrypt-accepted key p byte f in
    let shown = opened-checksum_and_encrypt key p byte f in
    (
      record {
        packet = opened key (checksum_and_encrypt key p);
        header_ok = header_checksum_ok (checksum_and_encrypt key p);
        data_ok = data_checksum_ok key (opened key (checksum_and_encrypt key p));
      },
      examine_lem st key (checksum_and_encrypt key p) flag found,
      ap (λ q. q.p_data) shown,
      ap (λ q. q.p_length) shown,
      header,
      all,
    )
