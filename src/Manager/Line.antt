-- ===== src/Manager/Line.antt =====
-- A stream between a client of handshake_user.rs and a server of services_user/mod.rs, and messages
-- that fit it.
use krcore_artifacts.Prelude.{
  ℕ, zero, suc, ap, ◌<◌, ◌≤◌, ◌≡◌, refl, [], ◌∷◌, List, true, some, Outcome, done, panic, length,
  take, drop, ◌==◌, arith,
}
use krcore_artifacts.Manager.{CmMessageType, RcConnectionData, Serde, Host}
use krcore_artifacts.Manager.Server.{Handler, Served, replied, serve, serve_parsed}
use krcore_artifacts.Manager.Client.{Net}

module _ (h : Host) (s : Serde) where
  -- A stream to the server `h`: what it keeps, and what it has written that is not read yet.
  pub record Line : Type 0 where
    pub handler : Handler h s
    pub inbox : List ℕ

  abbrev pub answered : Outcome (Served h s × Handler h s) → Line → Line
  answered (done (replied bytes, v)) l = record { handler = v; inbox = bytes }
  answered (done (_, v)) l = record { handler = v; inbox = [] }
  answered panic l = record l { inbox = [] }

  -- The network between a client and the server that listens at `addr`: what is written at once
  -- arrives at once, and the server answers it.
  abbrev pub line_to : ℕ → Net
  line_to addr = record {
    Stream = Line;
    connect = λ a l. (a == addr, l);
    write = λ bytes l. (true, answered (serve h s bytes l.handler) l);
    read = λ n l. (some (take n l.inbox), record l { inbox = drop n l.inbox });
  }

-- `serde_json` reads back what it wrote, and the data is short enough for the buffers.
pub record Encodes (s : Serde) (t : CmMessageType) (peer : RcConnectionData) : Type 0 where
  pub text : s.Text
  pub bytes : List ℕ
  pub to_text : s.data_to_text peer ≡ some text
  pub of_text : s.text_to_data text ≡ some peer
  pub to_bytes : s.message_to_bytes (record { message_type = t; serialized = text }) ≡ some bytes
  pub of_bytes : s.bytes_to_message bytes ≡ some (record { message_type = t; serialized = text })
  pub some_bytes : 0 < length bytes
  pub fits : length bytes ≤ 1024

pub take-all : (n : ℕ) (xs : List ℕ) → length xs ≤ n → take n xs ≡ xs
take-all zero [] h = refl
take-all zero (x ∷ xs) h = absurd (omega (arith, h))
take-all (suc n) [] h = refl
take-all (suc n) (x ∷ xs) h = ap (◌∷◌ x) (take-all n xs (omega (arith, h)))

-- A message that fits the buffer is parsed as it is.
pub serve-parsed :
    (h : Host) (s : Serde) (bytes : List ℕ) (v : Handler h s)
    → 0 < length bytes
    → length bytes ≤ 2048
    → serve h s bytes v ≡ serve_parsed h s (s.bytes_to_message bytes) v
unfolding serve
serve-parsed h s [] v some_bytes fits = absurd (omega (arith, some_bytes))
serve-parsed h s (b ∷ bs) v some_bytes fits =
    ap (λ l. serve_parsed h s (s.bytes_to_message l) v) (take-all 2048 (b ∷ bs) fits)
