-- ===== src/Compressor/Examples.antt =====
-- Concrete fields.
use jam_server_prototype.Common.{◌^◌, ◌≤◌, ◌<◌, ◌≡◌, arith}
use jam_server_prototype.Compressor.{pos, negsuc, to_uint16, pack_position, unpack_position}
use jam_server_prototype.Compressor.RoundTrip.{unpack-pack_position}

-- a height of 300 is packed as 38400
unpack-pack_position_example :
    let r = unpack_position (pack_position 32768 38400 65535) in
    (pack_position 32768 38400 65535 < 2 ^ 64)
    × (to_uint16 r.0 ≡ 32768)
    × (to_uint16 r.2 ≡ 65535)
    × (38400 < 32768 → r.1 ≡ pos 38400)
    × (32768 ≤ 38400 → r.1 ≡ negsuc 27135)
unpack-pack_position_example =
    unpack-pack_position 32768 38400 65535 (omega arith) (omega arith) (omega arith)
