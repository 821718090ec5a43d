-- ===== src/Connection/Tests.antt =====
-- The theorems on connections at concrete inputs. The host of both ends is a list of bytes: what
-- was written, and the data that were received.
use openrom.Base.{ℕ, ◌≡◌, refl, arith, List, [], ◌∷◌, ◌++◌, true, false, some, length, replicate}
use openrom.Buffer.{Buffer, contents}
use openrom.Buffer
use openrom.Buffer.Tests.{filled, filled-IsValid, contents-filled}
use openrom.Packet.{Packet, IsFramed, IsByte, to_bytes, checksum_and_encrypt, key_byte}
use openrom.Connection.{
  Host, Connection, Sent, next, numbered, key_packet, packet_at, wrote_all, step, send_packet,
  checksum_and_send, on_event,
}
use openrom.Connection.Delivery.{IsKeyed, send_packet_lem, send_packet_delivered}
use openrom.Connection.KeyExchange.{written_key, send_key_received}
use openrom.Connection.Loop.{Passes, Settles, step-Passes, on_event-IsSettled}

abbrev pub host : Host (List ℕ)
host = record {
  write = λ bytes s. (s ++ bytes, some (length bytes));
  on_new_key = λ c s. s ++ c.key;
  on_packet = λ p s. s ++ p.p_data;
  on_raw_packet = λ p s. s;
  stack_bytes = λ s. replicate 4 0;
}

abbrev pub key : List ℕ
key = 11 ∷ 12 ∷ 13 ∷ 14 ∷ 15 ∷ 16 ∷ 17 ∷ 18 ∷ 19 ∷ 20 ∷ []

abbrev pub sender : Connection
sender = record { buffer = filled []; key = key; sequence = 1; have_key = true }

pub sender-IsKeyed : IsKeyed sender
sender-IsKeyed = record { key_length = refl; key_bytes = ground arith; sequence_fits = omega arith }

abbrev pub two_bytes : Packet
two_bytes = record {
  p_length = 14;
  p_flag = 0;
  p_data_checksum = 0;
  p_header_checksum = 0;
  p_keynum = 0;
  p_seq = 0;
  p_data = 200 ∷ 7 ∷ [];
}

pub two_bytes-IsFramed : IsFramed two_bytes
two_bytes-IsFramed = record {
  framed = refl;
  length_fits = omega arith;
  seq_fits = omega arith;
  flag_byte = omega arith;
  keynum_byte = omega arith;
  data_bytes = (omega arith, (omega arith, tt));
}

-- The first packet goes out under the first byte of the key.
abbrev pub sealed : Packet
sealed = checksum_and_encrypt 11 (numbered sender two_bytes)

abbrev pub sent : Sent (List ℕ)
sent = record { ok = true; packet = sealed; world = to_bytes sealed }

pub sender_sends :
    send_packet host sender two_bytes [] ≡ some (record sender { sequence = 2 }, sent)
unfolding send_packet checksum_and_send numbered key_byte checksum_and_encrypt to_bytes
sender_sends = refl

-- A connection with the key, behind whose packet five more bytes wait.
abbrev pub receiver : Connection
receiver = record sender { buffer = filled (to_bytes sealed ++ replicate 5 1) }

pub receiver-IsValid : Buffer.IsValid receiver.buffer
unfolding checksum_and_encrypt numbered to_bytes
receiver-IsValid = filled-IsValid (to_bytes sealed ++ replicate 5 1) (omega arith)

send_packet_delivered_example :
    (q : Packet) × (b : Buffer) × (step host receiver []
      ≡ next (record receiver { buffer = b }) ([] ++ q.p_data))
    × (q.p_data ≡ two_bytes.p_data)
    × (q.p_length ≡ 14)
    × (q.p_seq ≡ 1)
    × IsFramed q
    × Buffer.IsValid b
    × (contents b ≡ replicate 5 1)
send_packet_delivered_example =
    send_packet_delivered host host sender (record sender { sequence = 2 }) receiver two_bytes []
      sent [] (replicate 5 1) sender-IsKeyed two_bytes-IsFramed (omega arith) sender_sends
      receiver-IsValid refl refl (contents-filled (to_bytes sealed ++ replicate 5 1))

send_packet_lem_example :
    (k : ℕ) × (key_byte key (numbered sender two_bytes) ≡ some k)
    × IsByte k
    × (let q = checksum_and_encrypt k (numbered sender two_bytes) in
        send_packet host sender two_bytes []
        ≡ some (
          record sender { sequence = 2 },
          record {
            ok = wrote_all (some (length (to_bytes q))) q.p_length;
            packet = q;
            world = to_bytes q;
          },
        ))
send_packet_lem_example = send_packet_lem host sender two_bytes [] sender-IsKeyed two_bytes-IsFramed

-- A connection without a key, behind whose key packet two more bytes wait.
abbrev pub waiting : List ℕ
waiting = to_bytes (written_key sender two_bytes) ++ (1 ∷ 2 ∷ [])

abbrev pub keyless : Connection
keyless = record { buffer = filled waiting; key = replicate 10 0; sequence = 1; have_key = false }

pub keyless-IsValid : Buffer.IsValid keyless.buffer
unfolding written_key key_packet checksum_and_encrypt to_bytes
keyless-IsValid = filled-IsValid waiting (omega arith)

send_key_received_example :
    (b : Buffer) × (step host keyless []
      ≡ next (record keyless { buffer = b; key = key; have_key = true }) ([] ++ key))
    × Buffer.IsValid b
    × (contents b ≡ 1 ∷ 2 ∷ [])
send_key_received_example =
    send_key_received host sender keyless two_bytes [] (1 ∷ 2 ∷ []) sender-IsKeyed keyless-IsValid
      (contents-filled waiting)

step-Passes_example : Passes keyless (packet_at keyless.buffer.memory) (step host keyless [])
step-Passes_example = step-Passes host keyless [] keyless-IsValid

on_event-IsSettled_example :
    Settles host keyless (some (14 ∷ 0 ∷ [])) [] (on_event host keyless (some (14 ∷ 0 ∷ [])) [])
on_event-IsSettled_example = on_event-IsSettled host keyless (some (14 ∷ 0 ∷ [])) [] keyless-IsValid
