-- ===== src/Container/Tests/Transfers.antt =====
-- Reads, writes and transfers of frames at concrete inputs.
use alsa_utils.Common.{
  ℕ, ◌+◌, ◌*◌, ◌<◌, ◌≡◌, refl, true, false, List, [], ◌∷◌, ◌++◌, length, take, drop, ltb, arith,
}
use alsa_utils.Axfer.Os.Laws.{splice}
use alsa_utils.Axfer.Context.{Context, parser, builder, au, ok}
use alsa_utils.Container.Io.{container_recursive_read, container_recursive_write}
use alsa_utils.Container.Io.Read.{ReadAll, container_recursive_read_lem, at_eof}
use alsa_utils.Container.Io.Write.{WriteAll, container_recursive_write_lem}
use alsa_utils.Container.Session.{cleared}
use alsa_utils.Container.Transfer.{container_context_process_frames}
use alsa_utils.Container.Transfer.Frames.{
  counted, takes_magic-handled, builder_process_frames, parser_process_frames,
}
use alsa_utils.Container.Transfer.Limits.{builder_passes_limit}
use alsa_utils.Container.Tests.Machine.{File, file, file_os, file_reads, file_writes, test_pcm}

abbrev idle : Context
idle = cleared 3

abbrev five : List ℕ
five = 1 ∷ 2 ∷ 3 ∷ 4 ∷ 5 ∷ []

container_recursive_read_example :
    ReadAll file_reads 7 [] idle
      (file 1 [] five)
      (container_recursive_read 9 7 (idle, file 1 [] five))
container_recursive_read_example =
    container_recursive_read_lem file_reads 9 7 idle (file 1 [] five) refl (omega arith)

container_recursive_write_example :
    WriteAll file_writes five idle
      (file 1 (9 ∷ []) (8 ∷ 7 ∷ []))
      (container_recursive_write 9 five (idle, file 1 (9 ∷ []) (8 ∷ 7 ∷ [])))
container_recursive_write_example =
    container_recursive_write_lem file_writes 9 five idle (file 1 (9 ∷ []) (8 ∷ 7 ∷ [])) refl
      (omega arith)

-- A builder and a parser of stereo frames of 8 bits, with room for 8 bytes.
abbrev writing : Context
writing = record idle {
  kind = builder;
  format = au;
  bytes_per_sample = 1;
  samples_per_frame = 2;
  handled_byte_count = 4;
  max_size = 8;
}

abbrev reading : Context
reading = record writing { kind = parser; magic_handled = true }

builder_process_frames_example :
    (w' : File) × (container_context_process_frames test_pcm 9 five 2 (writing, file 1 (9 ∷ []) [])
      ≡ (ok (five, 2), (counted writing (2 * 2), w')))
    × ((w'.front ++ w'.back) ≡ splice ((9 ∷ []) ++ []) 1 (take (2 * 2) five))
    × (length w'.front ≡ 1 + 2 * 2)
builder_process_frames_example =
    builder_process_frames test_pcm 9 file_writes five 2 2 writing (file 1 (9 ∷ []) []) refl refl
      refl refl (omega arith) (omega arith) (omega arith) (omega arith) (omega arith) (omega arith)
      (omega arith)

parser_process_frames_example :
    (w' : File) × (container_context_process_frames test_pcm 9 five 2
        (reading, file 1 [] (6 ∷ 7 ∷ 8 ∷ []))
      ≡ (ok (6 ∷ 7 ∷ 8 ∷ 4 ∷ 5 ∷ [], 2), (counted (at_eof reading (ltb 3 (2 * 2))) (2 * 2), w')))
    × (w'.back ≡ drop (2 * 2) (6 ∷ 7 ∷ 8 ∷ []))
parser_process_frames_example =
    parser_process_frames test_pcm 9 file_reads five 2 2 reading (file 1 [] (6 ∷ 7 ∷ 8 ∷ [])) refl
      (takes_magic-handled reading refl) refl refl refl (omega arith) (omega arith) (omega arith)
      (omega arith) (omega arith) (omega arith) (omega arith)

-- A limit below the request: all of it is written.
builder_passes_limit_example :
    (c' : Context) × (w' : File) × (container_context_process_frames test_pcm 9 five 2
        (record writing { handled_byte_count = 1; max_size = 3 }, file 1 [] [])
      ≡ (ok (five, 2), (c', w')))
    × ((w'.front ++ w'.back) ≡ splice [] 0 (take 4 five))
    × (3 < c'.handled_byte_count)
    × (c'.eof ≡ false)
builder_passes_limit_example =
    builder_passes_limit test_pcm 9 file_writes five 2 2
      (record writing { handled_byte_count = 1; max_size = 3 }) (file 1 [] []) refl refl refl refl
      (omega arith) (omega arith) (omega arith) (omega arith) (omega arith) (omega arith)
      (omega arith) (omega arith)

-- "x.voc"
