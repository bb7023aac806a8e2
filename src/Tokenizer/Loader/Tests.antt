-- ===== src/Tokenizer/Loader/Tests.antt =====
-- A file of two lines: runs of the loader, and the theorems at it.
use harmony_go.Prelude.{◌≡◌, refl, [], ◌∷◌, Bytes, codes, arith, All, ok, err}
use harmony_go.Header.{is_empty}
use harmony_go.Text.{index_byte}
use harmony_go.Text.Lines.{split_lines}
use harmony_go.Tokenizer.Store.{Pairs}
use harmony_go.Tokenizer.Loader.{
  trim_line, parse_digits, parse_uint, parse_line, load_loop, load_pairs, bad_rank, base_url,
  ends_in_slash,
}
use harmony_go.Tokenizer.Loader.Base64.{
  decode_string, decode_quanta, last_quantum, full_quantum, sextet, quantum, without_line_ends,
}
use harmony_go.Tokenizer.Loader.Lines.{parse_lines, load_pairs-parse_lines}
use harmony_go.Tokenizer.Loader.RoundTrip.{print_pairs, load_pairs-print_pairs}
use harmony_go.Tokenizer.Loader.Bounds.{IsBounded, load_pairs-Bounded}

abbrev file : Bytes
file = codes "IQ== 0\r\n\nYWJj 70"

abbrev file_pairs : Pairs
file_pairs = (codes "!", 0) ∷ (codes "abc", 70) ∷ []

file_run : load_pairs file ≡ ok file_pairs
unfolding load_pairs load_loop index_byte trim_line parse_line parse_uint parse_digits is_empty
    decode_string decode_quanta last_quantum full_quantum sextet quantum without_line_ends
file_run = refl

-- The error has the number of its line.
bad_file_run : load_pairs (codes "IQ== 0\n\nYWJj 4294967296") ≡ err (bad_rank 3)
unfolding load_pairs load_loop index_byte trim_line parse_line parse_uint parse_digits is_empty
    decode_string decode_quanta last_quantum full_quantum sextet quantum without_line_ends
bad_file_run = refl

base_url_run : base_url (codes "http://host") ≡ codes "http://host/"
unfolding base_url ends_in_slash is_empty
base_url_run = refl

load_pairs-parse_lines_example : load_pairs file ≡ parse_lines 1 (split_lines file)
load_pairs-parse_lines_example = load_pairs-parse_lines file

load_pairs-print_pairs_example : load_pairs (print_pairs file_pairs) ≡ ok file_pairs
load_pairs-print_pairs_example = load_pairs-print_pairs file_pairs (omega arith)

load_pairs-Bounded_example : All IsBounded file_pairs
load_pairs-Bounded_example = load_pairs-Bounded file file_pairs file_run
