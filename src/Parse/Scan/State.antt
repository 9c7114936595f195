-- ===== src/Parse/Scan/State.antt =====
-- parse.h and scan.c: the state of the scanner.
use colang.Prelude.{ℕ, Bool, false, List, []}
use colang.Parse.Token.{Tok, t_none}

pub record Indent : Type 0 where
  pub isblock : Bool
  pub n : ℕ

-- What the scanner reads of its source and its build.
pub record Source : Type 0 where
  pub body : List ℕ
  pub srcposorigin : ℕ
  pub parse_comments : Bool
  pub debug : Bool

pub record Comment : Type 0 where
  pub ptr : ℕ
  pub len : ℕ

pub data ScanError : Type 0 where
  mixed_indent invalid_utf8 : ScanError
  invalid_char : ℕ → ScanError

-- `comments` starts at comments_head; `errors` are the messages so far with their positions, the
-- last one first. The stack of indentations has its top first.
pub record Scanner : Type 0 where
  pub inp : ℕ
  pub insert_semi : Bool
  pub indent : Indent
  pub indent_dst : Indent
  pub indent_stack : List Indent
  pub tok : Tok
  pub tokstart : ℕ
  pub tokend : ℕ
  pub prevtokend : ℕ
  pub name : List ℕ
  pub lineno : ℕ
  pub linestart : ℕ
  pub comments : List Comment
  pub errors : List (ScanError × ℕ)

abbrev pub no_indent : Indent
no_indent = record { isblock = false; n = 0 }

abbrev pub scanner_init : Scanner
scanner_init = record {
  inp = 1;
  insert_semi = false;
  indent = no_indent;
  indent_dst = no_indent;
  indent_stack = [];
  tok = t_none;
  tokstart = 1;
  tokend = 1;
  prevtokend = 1;
  name = [];
  lineno = 1;
  linestart = 1;
  comments = [];
  errors = [];
}

-- A stage returns a token or goes on with the next stage.
pub data Stage : Type 0 where
  token go_on : Scanner → Stage
