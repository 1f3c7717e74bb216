-- ===== src/Protocol/Http2/Tests.antt =====
-- HTTP/2 frames: each theorem at a concrete input.
use ebpf_probe.Prelude.{◌≡◌, refl, true, List, [], ◌∷◌, ◌++◌, some, ok, arith}
use ebpf_probe.Protocol.Http2.{
  Http2Frame, Http2Setting, Http2HeadersFrame, parse_http2_frame, is_http2_magic, http2_magic,
}
use ebpf_probe.Protocol.Http2.Frames.{encode_frame, parse_http2_frame-encode_frame}

abbrev reset : Http2Frame
reset = record { len = 4; frame_type = 3; flags = 0; stream_id = 5; payload = 0 ∷ 0 ∷ 0 ∷ 8 ∷ [] }

abbrev settings : List Http2Setting
settings = record { id = 3; value = 100 } ∷ record { id = 4; value = 65535 } ∷ []

abbrev opening : Http2HeadersFrame
opening = record {
  stream_id = 1;
  end_stream = true;
  end_headers = true;
  priority = some (record { stream_dependency = 3; weight = 15; exclusive = true });
  header_block_fragment = 0x82 ∷ [];
}

magic_is_magic : is_http2_magic http2_magic ≡ true
unfolding is_http2_magic
magic_is_magic = refl

parse_http2_frame-encode_frame_example :
    parse_http2_frame (encode_frame 1 reset ++ 9 ∷ []) ≡ ok reset
parse_http2_frame-encode_frame_example =
    parse_http2_frame-encode_frame reset 1 (9 ∷ [])
      (record { exact = refl; short = omega arith; stream = omega arith }) (omega arith)
