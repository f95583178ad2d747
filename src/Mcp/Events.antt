-- ===== src/Mcp/Events.antt =====
-- pkg/proxy/mcp/proxy.go: the reply that the server frames as server-sent events (parseSSE).
use forager.Prelude.{
  ◌≡◌, ◌≢◌, Bool, false, List, [], ◌∷◌, ◌++◌, ◌==◌, nat_eq, if◌then◌else◌, Result, ok, err, ◌>>=◌,
}
use forager.Prelude.Bytes.{Bytes, bytes_eq, codes, has_prefix}
use forager.Prelude.Text.{drop, Lacks, split_lines}

pub data SseError : Type 0 where
  reading : SseError

-- What bufio.ScanLines takes off the end of a line.
unfoldable pub drop_cr : Bytes → Bytes
drop_cr [] = []
drop_cr (c ∷ []) = if c == 13 then [] else c ∷ []
drop_cr (c ∷ d ∷ s) = c ∷ drop_cr (d ∷ s)

abbrev pub prepend : Bytes → Result SseError Bytes → Result SseError Bytes
prepend text (ok rest) = ok (text ++ rest)
prepend text (err e) = err e

-- A line, before the data of the lines behind it.
abbrev pub take_line : Bytes → Result SseError Bytes → Result SseError Bytes
take_line line rest =
    if has_prefix (codes "data: ") line
    then (if drop 6 line == codes "[DONE]" then ok [] else prepend (drop 6 line) rest)
    else rest

-- `is_too_long` is the limit of a bufio.Scanner: it stops at such a line with an error.
module _ (is_too_long : Bytes → Bool) where
  unfoldable pub collect_lines : List Bytes → Result SseError Bytes
  unfolding drop_cr has_prefix drop
  collect_lines [] = ok []
  collect_lines (line ∷ lines) =
      let rest = collect_lines lines in
      if is_too_long line then err reading else take_line (drop_cr line) rest

  unfoldable pub parse_sse : Bytes → Result SseError Bytes
  unfolding collect_lines split_lines
  parse_sse body =
      collect_lines (split_lines 10 body) >>= λ text. if text == [] then ok body else ok text

  -- A message that one event can carry: a line, but not the mark of the end.
  pub record IsMessage (m : Bytes) : Type 0 where
    pub one_line : Lacks 10 m
    pub no_return : Lacks 13 m
    pub not_done : m ≢ codes "[DONE]"
    pub in_limit : is_too_long (codes "data: " ++ m) ≡ false

  -- The events with these messages, each on one line of data and closed by an empty line.
  abbrev pub frames : List Bytes → Bytes
  frames [] = []
  frames (m ∷ ms) = (codes "data: " ++ m) ++ (10 ∷ 10 ∷ frames ms)

  abbrev pub concat : List Bytes → Bytes
  concat [] = []
  concat (m ∷ ms) = m ++ concat ms
