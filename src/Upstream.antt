-- ===== src/Upstream.antt =====
-- DialVPNServer of upstream.go over a connection that DialTransport has made. What the other end
-- sends is a list of arrivals, and `combined` parts are the payload of GenerateAuthPayload and the
-- address of EncodeAddress. The text of the HTTP request, which fmt and base64 make, is an argument.
pub mod Agreement
use stealthlink.Prelude.{
  Bool, Bytes, List, Result, [], bytes_beq, drop, err, if◌then◌else◌, length, ltb, not, ok, take, ℕ,
  ◌++◌, ◌==◌, ◌||◌, ◌∷◌,
}
use stealthlink.Wire.Writer.{WriteOutcome, write, Sink, done, write_failed}
use stealthlink.Peeking.{Fault, put_back, net_read, Arrival, arrives, times_out}

pub data UpstreamError : Type 0 where
  http_write_failed http_read_failed http_refused address_write_failed auth_write_failed
        status_read_failed authentication_denied target_failed blocked_by_firewall :
      UpstreamError
  connect_error : ℕ → UpstreamError

-- The result of a dial is what the connection has still to give.
abbrev pub Dialled : Type 0
Dialled = Result UpstreamError (List Arrival)

unfoldable pub dial_status : ℕ → List Arrival → Dialled
dial_status status conn =
    if not (status == 0x00)
    then (if status == 0x01
        then err authentication_denied
        else if status == 0x02
        then err target_failed
        else if status == 0x03
        then err blocked_by_firewall
        else err (connect_error status))
    else ok conn

-- io.ReadFull of the one byte of the status.
unfoldable pub read_dial_status : List Arrival → Dialled
unfolding dial_status
read_dial_status [] = err status_read_failed
read_dial_status (times_out ∷ conn) = err status_read_failed
read_dial_status (arrives [] ∷ conn) = read_dial_status conn
read_dial_status (arrives (status ∷ bytes) ∷ conn) = dial_status status (put_back bytes conn)

-- The status line of the answer: "200" from its ninth byte on.
abbrev pub http_accepted : Bytes → Bool
http_accepted resp =
    not (ltb (length resp) 12 || not (bytes_beq (take 3 (drop 9 resp)) (50 ∷ 48 ∷ 48 ∷ [])))

abbrev pub after_write : UpstreamError → Sink × WriteOutcome → List Arrival → Sink × Dialled
after_write failure (sink, done) conn = (sink, read_dial_status conn)
after_write failure (sink, write_failed) conn = (sink, err failure)

unfoldable pub after_response : Bytes → Sink → Result Fault Bytes × List Arrival → Sink × Dialled
unfolding read_dial_status write
after_response header sink (err e, conn) = (sink, err http_read_failed)
after_response header sink (ok resp, conn) =
    if http_accepted resp
    then after_write address_write_failed (write sink.answers sink.written header) conn
    else (sink, err http_refused)

abbrev pub after_request : Bytes → Sink × WriteOutcome → List Arrival → Sink × Dialled
after_request header (sink, write_failed) conn = (sink, err http_write_failed)
after_request header (sink, done) conn = after_response header sink (net_read 4096 conn)

-- With a secret path, the payload goes in an HTTP request, and the address follows the answer.
unfoldable pub dial_http : Bytes → Bytes → Sink → List Arrival → Sink × Dialled
unfolding after_response net_read write
dial_http request header sink conn =
    after_request header (write sink.answers sink.written request) conn

unfoldable pub dial_plain : Bytes → Bytes → Sink → List Arrival → Sink × Dialled
unfolding read_dial_status write
dial_plain auth_payload header sink conn =
    after_write auth_write_failed (write sink.answers sink.written (auth_payload ++ header)) conn

-- `request` makes the text of the HTTP request from the path and the payload.
unfoldable pub dial_vpn_server :
    (Bytes → Bytes → Bytes) → Bytes → Bytes → Bytes → Sink → List Arrival → Sink × Dialled
unfolding dial_http dial_plain
dial_vpn_server request secret_path auth_payload header sink conn =
    if not (length secret_path == 0)
    then dial_http (request secret_path auth_payload) header sink conn
    else dial_plain auth_payload header sink conn

-- "/api/v2/sync"
abbrev default_secret_path : Bytes
default_secret_path = 47 ∷ 97 ∷ 112 ∷ 105 ∷ 47 ∷ 118 ∷ 50 ∷ 47 ∷ 115 ∷ 121 ∷ 110 ∷ 99 ∷ []

unfoldable pub dial_upstream :
    (Bytes → Bytes → Bytes) → Bytes → Bytes → Bytes → Sink → List Arrival → Sink × Dialled
unfolding dial_vpn_server
dial_upstream request secret_path auth_payload header sink conn =
    dial_vpn_server request (if length secret_path == 0 then default_secret_path else secret_path)
      auth_payload header sink conn
