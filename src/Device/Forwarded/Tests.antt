-- ===== src/Device/Forwarded/Tests.antt =====
-- A command list with a texture and a uniform buffer, read with the little-endian layout.
use infinigpu.Prelude.{
  ℕ, ◌/◌, ◌%◌, ◌≡◌, refl, arith, Option, none, some, List, [], ◌∷◌, ◌++◌, get_or, length, take,
  drop, leb, if◌then◌else◌, true, false,
}
use infinigpu.Device.Dispatch.{Bytes}
use infinigpu.Device.Forwarded.{
  Wire, ForwardedCmdListTail, OwnedForwardedDraw, to_words, spirv_magic, cstr,
}
use infinigpu.Device.Forwarded.Checks.{Sections, sections, total_len, checked_sum, split_at}
use infinigpu.Device.Forwarded.CmdList.{
  decode_forwarded_cmdlist, read_attrs, read_draws, read_textures, read_uniforms, decode_sections,
}
use infinigpu.Device.Forwarded.Split.{Fits, joined, split_is_exact}
use infinigpu.Device.Forwarded.Safe.{DrawOk}
use infinigpu.Device.Forwarded.Safety.{accepted_is_safe}

abbrev word_of : ℕ → Bytes
word_of v = v % 256 ∷ v / 256 % 256 ∷ v / 65536 % 256 ∷ v / 16777216 % 256 ∷ []

abbrev bytes_of : List ℕ → Bytes
bytes_of [] = []
bytes_of (w ∷ ws) = word_of w ++ bytes_of ws

-- A structure of `n` words, which `f` takes from them by number.
abbrev reader : {A : Type 0} → ℕ → ((ℕ → ℕ) → A) → Bytes → Option (A × Bytes)
reader n f b =
    if leb n (length b) then some (f (λ i. get_or (to_words (take n b)) i 0), drop n b) else none

abbrev little_endian : Wire
little_endian = record {
  read_draw_tail = reader 24 λ w. record {
    vertex_count = w 0;
    topology = w 1;
    vertex_spirv_len = w 2;
    fragment_spirv_len = w 3;
    vertex_entry_len = w 4;
    fragment_entry_len = w 5;
  };
  read_cmdlist_tail = reader 80 λ w. record {
    vertex_spirv_len = w 0;
    fragment_spirv_len = w 1;
    vertex_entry_len = w 2;
    fragment_entry_len = w 3;
    vertex_stride = w 4;
    attr_count = w 5;
    vertex_data_len = w 6;
    index_data_len = w 7;
    index_type = w 8;
    draw_count = w 9;
    topology = w 10;
    depth_flags = w 11;
    push_const_len = w 12;
    tex_count = w 13;
    ubo_len = w 14;
    ubo_count = w 15;
    tex_binding = w 16;
    raster_flags = w 17;
    ssbo_len = w 18;
    ssbo_binding = w 19;
  };
  read_attr = reader 12 λ w. record { location = w 0; format = w 1; offset = w 2 };
  read_draw = reader 32 λ w. record {
    count = w 0;
    instance_count = w 1;
    first = w 2;
    vertex_offset = w 3;
    vp_x = w 4;
    vp_y = w 5;
    vp_w = w 6;
    vp_h = w 7;
  };
  read_texture =
      reader 16 λ w. record { width = w 0; height = w 1; data_len = w 2; sampler_flags = w 3 };
}

abbrev header : List ℕ
header = 0 ∷ 0 ∷ 0 ∷ 0 ∷ 0 ∷ 0 ∷ 0 ∷ 0 ∷ 0 ∷ 0 ∷ []

-- One draw, one texture of one pixel at binding 1, one uniform at binding 0, no vertex buffer.
abbrev sizes : List ℕ
sizes = 8 ∷ 4 ∷ 2 ∷ 2 ∷ 0 ∷ 0 ∷ 0 ∷ 0 ∷ 1 ∷ 1 ∷ 3 ∷ 49 ∷ 0 ∷ 1 ∷ 12 ∷ 1 ∷ 1 ∷ 0 ∷ 4 ∷ 3 ∷ []

abbrev main : Bytes
main = 109 ∷ 0 ∷ []

abbrev payload : Bytes
payload =
    bytes_of header
    ++ bytes_of sizes
    ++ bytes_of (36 ∷ 1 ∷ 0 ∷ 0 ∷ 0 ∷ 0 ∷ 0 ∷ 0 ∷ [])
    ++ bytes_of (1 ∷ 1 ∷ 4 ∷ 1 ∷ [])
    ++ bytes_of (spirv_magic ∷ 65536 ∷ [])
    ++ bytes_of (spirv_magic ∷ [])
    ++ main
    ++ main
    ++ bytes_of (0 ∷ 4 ∷ 7 ∷ [])
    ++ bytes_of (99 ∷ [])
    ++ bytes_of (4278190335 ∷ [])

abbrev decoded : OwnedForwardedDraw
decoded = record {
  vertex_spirv = spirv_magic ∷ 65536 ∷ [];
  fragment_spirv = spirv_magic ∷ [];
  vertex_entry = 109 ∷ [];
  fragment_entry = 109 ∷ [];
  vertex_count = 0;
  topology = 3;
  geometry = some (record {
    vertex_data = [];
    vertex_stride = 0;
    attrs = [];
    index_data = [];
    index_u32 = true;
    draws =
        record {
          count = 36;
          instance_count = 1;
          first = 0;
          vertex_offset = 0;
          viewport = (0, 0, 0, 0);
        }
        ∷ [];
    depth = some (record { test = true; write = false; compare = 3 });
    push_constants = [];
    textures =
        record {
          width = 1;
          height = 1;
          rgba = 255 ∷ 0 ∷ 0 ∷ 255 ∷ [];
          linear = true;
          repeat = false;
        }
        ∷ [];
    tex_binding = 1;
    uniforms = record { binding = 0; bytes = 7 ∷ 0 ∷ 0 ∷ 0 ∷ [] } ∷ [];
    storage = some (record { binding = 3; bytes = 99 ∷ 0 ∷ 0 ∷ 0 ∷ [] });
    raster_flags = 0;
  });
}

-- The tail that the payload holds.
abbrev meshless : ForwardedCmdListTail
meshless = record {
  vertex_spirv_len = 8;
  fragment_spirv_len = 4;
  vertex_entry_len = 2;
  fragment_entry_len = 2;
  vertex_stride = 0;
  attr_count = 0;
  vertex_data_len = 0;
  index_data_len = 0;
  index_type = 1;
  draw_count = 1;
  topology = 3;
  depth_flags = 49;
  push_const_len = 0;
  tex_count = 1;
  ubo_len = 12;
  ubo_count = 1;
  tex_binding = 1;
  raster_flags = 0;
  ssbo_len = 4;
  ssbo_binding = 3;
}

accepted_is_safe_example : DrawOk 4096 decoded
unfolding decode_forwarded_cmdlist total_len checked_sum split_at sections read_attrs read_draws
    read_textures read_uniforms cstr decode_sections
accepted_is_safe_example = accepted_is_safe little_endian payload 4096 decoded refl

split_is_exact_example :
    (s : Sections) × (sections meshless (drop 120 payload) ≡ some s)
    × Fits meshless s
    × (joined s ≡ drop 120 payload)
unfolding total_len checked_sum
split_is_exact_example = split_is_exact meshless (drop 120 payload) 80 refl (omega arith)
