-- ===== src/Streams/Inflate.antt =====
-- streams/gzip_inflate_stream.cc and streams/detail/zlib.cc: a stream that inflates another one; zlib
-- is a parameter.
use ml_io.Base.{ℕ, Bool, true, false, [], ◌∷◌, ◌==◌, if◌then◌else◌, Bytes}
use ml_io.Action.{Result, ok, err, stream_error, out_of_memory, undefined_behaviour, Action}
use ml_io.Streams.{InputStream}

-- The results of `::inflate` that the code names, and any other one.
pub data ZlibCode : Type 0 where
  z_ok z_stream_end z_need_dict z_data_error z_mem_error z_other : ZlibCode

-- A call on the input that is left with room for some bytes: the code, the input that is left then,
-- and the output.
pub record Inflated (S : Type 0) : Type 0 where
  pub code : ZlibCode
  pub left : Bytes
  pub output : Bytes
  pub stream : S

pub record Zlib : Type 1 where
  pub Stream : Type 0
  pub inflate : Bytes → ℕ → Stream → Inflated Stream
  pub inflate_reset : Stream → Stream

abbrev is_stream_end : ZlibCode → Bool
is_stream_end z_stream_end = true
is_stream_end _ = false

-- An assertion fails where the code is none of those that are named.
pub validate_state : ZlibCode → Result (Unit {0})
validate_state z_ok = ok tt
validate_state z_stream_end = ok tt
validate_state z_need_dict = err stream_error
validate_state z_data_error = err stream_error
validate_state z_mem_error = err out_of_memory
validate_state z_other = err undefined_behaviour

-- `Zlib_inflater`: the stream of zlib and the last code.
pub record Inflater (Z : Type 0) : Type 0 where
  pub stream : Z
  pub state : ZlibCode

pub record GzipStream (S Z : Type 0) : Type 0 where
  pub inner : S
  pub closed : Bool
  pub buffer : Bytes
  pub inflater : Inflater Z

module _ (m : InputStream) (z : Zlib) where
  abbrev Inflating : Type 0
  Inflating = GzipStream m.State z.Stream

  abbrev kept_stream : ZlibCode → z.Stream → z.Stream
  kept_stream code s = if is_stream_end code then z.inflate_reset s else s

  abbrev put_inflated : Inflated z.Stream → Result (Unit {0}) → Action Inflating Bytes
  put_inflated r (err e) s =
      (err e, record s { inflater = record { stream = r.stream; state = r.code } })
  put_inflated r (ok _) s = (
    ok r.output,
    record s {
      buffer = r.left;
      inflater = record { stream = kept_stream r.code r.stream; state = r.code };
    },
  )

  abbrev inflated : Inflated z.Stream → Action Inflating Bytes
  inflated r = put_inflated r (validate_state r.code)

  abbrev if_valid : ℕ → Result (Unit {0}) → Action Inflating Bytes
  if_valid n (err e) s = (err e, s)
  if_valid n (ok _) s = inflated (z.inflate s.buffer n s.inflater.stream) s

  -- `Zlib_inflater::inflate` on what is left of the buffer.
  pub inflate : ℕ → Action Inflating Bytes
  inflate n s = if_valid n (validate_state s.inflater.state) s

  -- The end of the inner stream has to be the end of a member.
  abbrev at_end : Action Inflating Bytes
  at_end s = if is_stream_end s.inflater.state then (ok [], s) else (err stream_error, s)

  abbrev buffer_read : ℕ → Inflating → Result Bytes × m.State → Result Bytes × Inflating
  buffer_read n s (err e, inner) = (err e, record s { inner = inner })
  buffer_read n s (ok [], inner) = at_end (record s { inner = inner; buffer = [] })
  buffer_read n s (ok (b ∷ bs), inner) = inflate n (record s { inner = inner; buffer = b ∷ bs })

  abbrev read_buffer : ℕ → Bytes → Action Inflating Bytes
  read_buffer n [] s = buffer_read n s (m.read 524288 s.inner)
  read_buffer n (b ∷ bs) s = inflate n s

  pub read : ℕ → Action Inflating Bytes
  read n s =
      if s.closed
      then (err stream_error, s)
      else if n == 0
      then (ok [], s)
      else read_buffer n s.buffer s
