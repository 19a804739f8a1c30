-- ===== src/Tests/Buffers.antt =====
-- The buffers of common/buffer.c and the encoding of common/encode.c at concrete inputs.
use ceph_in_c.Base.{◌<◌, ◌≡◌, refl, inl, false, [], ◌∷◌, ◌++◌, arith, length}
use ceph_in_c.Base.Errno.{ok, returns}
use ceph_in_c.Base.Alloc.{Alloc}
use ceph_in_c.Buffer.{Buffer, BufferReader, buffer_append, contents}
use ceph_in_c.Buffer.Append.{content, IsValid, Grown, buffer_append-Grown}
use ceph_in_c.Buffer.Plentiful.{Appended}
use ceph_in_c.Buffer.Reader.{Ready, ahead}
use ceph_in_c.Encode.{bytes_of, encode_string, decode_string}
use ceph_in_c.Encode.Bytes.{bound}
use ceph_in_c.Encode.RoundTrip.{decode_string-encode_string}
use ceph_in_c.Osdmap.{Osdmap, encode_osdmap, decode_osdmap}
use ceph_in_c.Osdmap.RoundTrip.{osdmap_bytes, OsdmapFits, decode_osdmap-encode_osdmap}

abbrev two_bytes : Buffer
two_bytes = record {
  before = [];
  current = record { written = 5 ∷ 6 ∷ []; length = 4096 };
  length = 4096;
  offset = 2;
}

two_bytes-IsValid : IsValid two_bytes
unfolding contents
two_bytes-IsValid = record {
  shape = record {
    full = tt;
    current_length = refl;
    fits = omega arith;
    offset = refl;
    length_lem = omega arith;
  };
  started = inl refl;
}

abbrev no_bytes : Buffer
no_bytes = record {
  before = [];
  current = record { written = []; length = 4096 };
  length = 4096;
  offset = 0;
}

no_bytes-IsValid : IsValid no_bytes
unfolding contents
no_bytes-IsValid = record {
  shape = record {
    full = tt;
    current_length = refl;
    fits = omega arith;
    offset = refl;
    length_lem = omega arith;
  };
  started = inl refl;
}

-- Two nodes with seven bytes, the integer 258 and three more.
abbrev reader : BufferReader
reader = record {
  nodes =
      record { written = 2 ∷ 1 ∷ []; length = 4096 }
      ∷ record { written = 0 ∷ 0 ∷ 7 ∷ []; length = 4096 }
      ∷ [];
  at = 0;
}

reader-Ready : Ready reader.nodes reader.at
reader-Ready = (omega arith, (omega arith, tt))

reader_bytes : ahead reader.nodes reader.at ≡ bytes_of 4 258 ++ (7 ∷ [])
unfolding contents bytes_of
reader_bytes = refl

-- A string of two bytes, encoded.
abbrev string_reader : BufferReader
string_reader = record {
  nodes =
      record { written = 2 ∷ 0 ∷ 0 ∷ 0 ∷ 97 ∷ []; length = 4096 }
      ∷ record { written = 98 ∷ 7 ∷ []; length = 4096 }
      ∷ [];
  at = 0;
}

string_reader-Ready : Ready string_reader.nodes string_reader.at
string_reader-Ready = (omega arith, (omega arith, tt))

string_reader_bytes :
    ahead string_reader.nodes string_reader.at ≡ (bytes_of 4 2 ++ (97 ∷ 98 ∷ [])) ++ (7 ∷ [])
unfolding contents bytes_of
string_reader_bytes = refl

buffer_append-Grown_example :
    Grown two_bytes (7 ∷ 8 ∷ []) (buffer_append two_bytes (7 ∷ 8 ∷ []) (false ∷ []))
buffer_append-Grown_example =
    buffer_append-Grown two_bytes 7 (8 ∷ []) (false ∷ []) two_bytes-IsValid

two_there : 0 < length (content two_bytes)
unfolding contents
two_there = omega arith

none_there : content no_bytes ≡ []
unfolding contents
none_there = refl

value_fits : 258 < bound 4
unfolding bound
value_fits = omega arith

decode_string-encode_string_example :
    Appended two_bytes (bytes_of 4 2 ++ (97 ∷ 98 ∷ [])) (encode_string two_bytes (97 ∷ 98 ∷ []) [])
    × ((r' : BufferReader) × (c' : Alloc) × (decode_string string_reader []
          ≡ returns (ok, 97 ∷ 98 ∷ [], r', c'))
        × Ready r'.nodes r'.at
        × (ahead r'.nodes r'.at ≡ 7 ∷ []))
decode_string-encode_string_example =
    decode_string-encode_string 97 (98 ∷ []) two_bytes string_reader [] [] (7 ∷ []) (omega arith)
      two_bytes-IsValid tt tt string_reader-Ready string_reader_bytes

-- A map of two daemons.
abbrev two_osds : Osdmap
two_osds = record {
  epoch = 3;
  pg_count = 4;
  osd_count = 2;
  osds = record { id = 8 } ∷ record { id = 9 } ∷ [];
}

abbrev empty_map : Osdmap
empty_map = record { epoch = 0; pg_count = 0; osd_count = 0; osds = [] }

two_osds-OsdmapFits : OsdmapFits two_osds
two_osds-OsdmapFits = record {
  epoch = omega arith;
  pg_count = omega arith;
  counted = refl;
  osd_count = omega arith;
  osds = (omega arith, (omega arith, tt));
}

abbrev map_reader : BufferReader
map_reader = record {
  nodes =
      record {
        written =
            1 ∷ 3 ∷ 0 ∷ 0 ∷ 0 ∷ 4 ∷ 0 ∷ 0 ∷ 0 ∷ 2 ∷ 0 ∷ 0 ∷ 0 ∷ 1 ∷ 8 ∷ 0 ∷ 0 ∷ 0 ∷ 1 ∷ 9 ∷ 0 ∷ 0
            ∷ 0 ∷ 7 ∷ [];
        length = 4096;
      }
      ∷ [];
  at = 0;
}

map_reader-Ready : Ready map_reader.nodes map_reader.at
map_reader-Ready = (omega arith, tt)

map_reader_bytes : ahead map_reader.nodes map_reader.at ≡ osdmap_bytes two_osds ++ (7 ∷ [])
unfolding contents bytes_of
map_reader_bytes = refl

decode_osdmap-encode_osdmap_example :
    Appended two_bytes (osdmap_bytes two_osds) (encode_osdmap two_bytes two_osds [])
    × ((r' : BufferReader) × (c' : Alloc) × (decode_osdmap map_reader empty_map 0 []
          ≡ returns (ok, two_osds, r', c'))
        × Ready r'.nodes r'.at
        × (ahead r'.nodes r'.at ≡ 7 ∷ []))
decode_osdmap-encode_osdmap_example =
    decode_osdmap-encode_osdmap two_osds empty_map 0 two_bytes map_reader [] [] (7 ∷ [])
      two_osds-OsdmapFits two_bytes-IsValid tt tt map_reader-Ready map_reader_bytes
