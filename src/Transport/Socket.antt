-- ===== src/Transport/Socket.antt =====
-- `AsyncSocket` of ch_transport.cpp and the streams of the two kinds of socket. The flags of a descriptor are bits.
use php_clickhouse.Base.{
  ℕ, ◌≡◌, ◌≢◌, refl, Bool, true, false, ◌||◌, ◌==◌, ==_iff, if◌then◌else◌, arith,
}

-- The flags of a descriptor, and whether `fcntl` answers for F_GETFL and for F_SETFL.
pub record Descriptor : Type 0 where
  pub flags : ℕ → Bool
  pub gets : Bool
  pub sets : Bool

-- fcntl(handle_, F_SETFL, flags)
pub set_flags : (ℕ → Bool) → Descriptor → Descriptor
set_flags flags d = if d.sets then record d { flags = flags } else d

-- `o_nonblock` is the bit of O_NONBLOCK.
pub set_nonblocking : ℕ → Descriptor → Descriptor
unfolding set_flags
set_nonblocking o_nonblock d =
    if d.gets then set_flags (λ bit. d.flags bit || bit == o_nonblock) d else d

-- The streams, with what they read from and write to: a descriptor or a php_stream.
pub data InputStream : Type 0 where
  async_input tls_input : ℕ → InputStream

pub data OutputStream : Type 0 where
  async_output tls_output : ℕ → OutputStream

-- An open socket: its handle and descriptor, or its php_stream.
pub data OpenSocket : Type 0 where
  async_socket : ℕ → Descriptor → OpenSocket
  tls_socket : ℕ → OpenSocket

-- The base constructor has connected the descriptor.
pub new_async_socket : ℕ → ℕ → Descriptor → OpenSocket
unfolding set_nonblocking
new_async_socket o_nonblock handle d = async_socket handle (set_nonblocking o_nonblock d)

pub make_input_stream : OpenSocket → InputStream
make_input_stream (async_socket handle d) = async_input handle
make_input_stream (tls_socket stream) = tls_input stream

pub make_output_stream : OpenSocket → OutputStream
make_output_stream (async_socket handle d) = async_output handle
make_output_stream (tls_socket stream) = tls_output stream

-- No stream can skip bytes.
pub skip : InputStream → ℕ → Bool
skip input bytes = false

-- The sockets whose calls of recv and send do not block.
abbrev pub IsNonblocking : ℕ → OpenSocket → Type 0
IsNonblocking o_nonblock (async_socket handle d) = d.flags o_nonblock ≡ true
IsNonblocking o_nonblock (tls_socket stream) = ⊥

-- A new socket does not block, and has no other flag that its descriptor had not, and all of those, if fcntl answers.
pub new_async_socket-IsNonblocking :
    (o_nonblock handle : ℕ) (d : Descriptor)
    → d.gets ≡ true
    → d.sets ≡ true
    → IsNonblocking o_nonblock (new_async_socket o_nonblock handle d)
      × ((bit : ℕ) → bit ≢ o_nonblock → (set_nonblocking o_nonblock d).flags bit ≡ d.flags bit)
unfolding new_async_socket set_nonblocking set_flags
new_async_socket-IsNonblocking o_nonblock handle d g s =
    rw (g, s) (ground (arith, (==_iff o_nonblock o_nonblock).1 refl), λ bit other. ground arith)
