-- ===== src/Container/Au/RoundTrip.antt =====
-- A Sun audio file that the builder writes is read back by the parser.
use alsa_utils.Common.{
  ℕ, ◌+◌, ◌*◌, ◌/◌, ◌%◌, ◌<◌, ◌≡◌, refl, ◌∙◌, ap, false, some, List, ◌++◌, length, take, drop,
  arith,
}
use alsa_utils.Axfer.Pcm.{Format, unknown, Pcm, int_div8}
use alsa_utils.Axfer.Os.{Os}
use alsa_utils.Axfer.Os.Laws.{ReadLaws}
use alsa_utils.Axfer.Context.{Params, Context, AuBuilder, au_parser, ok}
use alsa_utils.Container.Io.{container_recursive_read}
use alsa_utils.Container.Io.Read.{read_block}
use alsa_utils.Container.Au.{
  au_magic, format_maps, format_of_code, code_of_format, build_container_header,
  au_parser_pre_process, au_check_header, au_accept,
}

-- The code that the builder finds for a format is one for which the parser finds this format.
format_of_code-code_of_format :
    (f : Format) (code : ℕ)
    → code_of_format f format_maps ≡ some code
    → format_of_code code format_maps ≡ some f
unfolding code_of_format format_of_code
format_of_code-code_of_format unknown code h = ground arith
format_of_code-code_of_format _ code h = ground arith

code_of_format-lt :
    (f : Format) (code : ℕ) → code_of_format f format_maps ≡ some code → code < 4294967296
unfolding code_of_format
code_of_format-lt unknown code h = ground arith
code_of_format-lt _ code h = ground arith

-- What the parser makes of a header.
abbrev pub parsed : Pcm → AuBuilder → Format → ℕ → ℕ → Params
parsed pcm st f fps count = record {
  format = f;
  samples_per_frame = st.samples_per_frame;
  frames_per_second = fps;
  byte_count = count;
}

abbrev pub parser_state : Pcm → AuBuilder → Format → Context → Context
parser_state pcm st f c = record c {
  private_data = au_parser (record {
    code_id = st.code_id;
    samples_per_frame = st.samples_per_frame;
    bytes_per_sample = int_div8 (pcm.physical_width f);
  });
}

be32_fixed :
    (x : ℕ)
    → x < 4294967296
    → 16777216 * (x / 16777216 % 256) + 65536 * (x / 65536 % 256) + 256 * (x / 256 % 256) + x % 256
      ≡ x
be32_fixed x h = omega arith

module _ ⦃os : Os⦄ (pcm : Pcm) (fuel : ℕ) where
  au_check_header-build :
      (st : AuBuilder) (f : Format) (rest : List ℕ) (fps count : ℕ) (c : Context) (w : os.World)
      → code_of_format f format_maps ≡ some st.code_id
      → st.samples_per_frame < 4294967296
      → fps < 4294967296
      → count < 4294967296
      → au_check_header pcm fuel (build_container_header st fps count ++ rest) (c, w)
        ≡ (ok (parsed pcm st f fps count), (parser_state pcm st f c, w))
  unfolding au_check_header au_accept build_container_header
  au_check_header-build st f rest fps count c w hf hs hr hc = rw (
    be32_fixed st.code_id (code_of_format-lt f st.code_id hf),
    format_of_code-code_of_format f st.code_id hf,
    au_accept,
    be32_fixed st.code_id (code_of_format-lt f st.code_id hf),
    be32_fixed st.samples_per_frame hs,
    be32_fixed fps hr,
    be32_fixed count hc,
  )

  -- The parser behind a read that met no end of file.
  au_parser_reads :
      (junk body magic : List ℕ) (params : Params) (c c' : Context) (w w' : os.World)
      → container_recursive_read fuel 20 (c, w) ≡ (ok body, (c', w'))
      → c'.eof ≡ false
      → c.magic ≡ magic
      → au_parser_pre_process pcm fuel junk params (c, w)
        ≡ au_check_header pcm fuel (take 4 magic ++ (body ++ drop (4 + length body) junk)) (c', w')
  unfolding au_parser_pre_process
  au_parser_reads junk body magic params c c' w w' e he hm =
      rw (e, au_parser_pre_process) (simp (he, hm))

module _ ⦃os : Os⦄ (pcm : Pcm) (fuel : ℕ) (file : ReadLaws) where
  open file use {pending, patience}

  -- A file whose first bytes, of which the container has read four already, are the header that the
  -- builder makes for one of its formats, with values that fit the fields: without an interrupt and
  -- with enough fuel, the parser returns the format, the channels, the rate and the number of bytes
  -- of the header, keeps them in its state, and leaves the file at the frames.
  pub au_parser-build :
      (st : AuBuilder) (f : Format) (junk frames : List ℕ) (fps count : ℕ) (params : Params)
      (c : Context) (w : os.World)
      → code_of_format f format_maps ≡ some st.code_id
      → st.samples_per_frame < 4294967296
      → fps < 4294967296
      → count < 4294967296
      → c.interrupted ≡ false
      → c.eof ≡ false
      → c.magic ≡ au_magic
      → c.magic ++ pending w ≡ build_container_header st fps count ++ frames
      → 20 + patience w < fuel
      → (w' : os.World) × (au_parser_pre_process pcm fuel junk params (c, w)
          ≡ (ok (parsed pcm st f fps count), (parser_state pcm st f c, w')))
        × (pending w' ≡ frames)
  unfolding build_container_header
  au_parser-build st f junk frames fps count params c w hf hs hr hc hi he hm hp hfuel =
      let blk =
        read_block file fuel 20 (drop 4 (build_container_header st fps count)) frames c w hi
          (ap (drop 4) (rw hm at hp)) refl hfuel in
      (
        blk.after,
        au_parser_reads pcm fuel junk _ au_magic params c c w blk.after blk.result he hm
            ∙ au_check_header-build pcm fuel st f (drop 24 junk) fps count c blk.after hf hs hr hc,
        blk.left,
      )
