-- ===== src/Scans/Document.antt =====
-- The state of a scan: what of struct hemp_document (include/hemp/document.h) and of the list of fragments
-- (library/fragments.c) the scanners use. A pointer into the source is the string that it points to, a
-- suffix of the source.
use hemp.Base.{ℕ, zero, suc, ◌+◌, ◌-◌, List, [], ◌∷◌, ◌++◌, length, take}
use hemp.Chars.{Str}
use hemp.Ptrees.Tree.{Ptree}

-- Where a scan stops. These are the errors that are thrown or fatal, and three that the code does not report, where
-- the model stops: a read behind the NUL of the source, with which the code goes on in memory that is not the source's
-- (`read_past_end`), a scanner that is not followed (`not_followed`), and fuel that is used up.
pub data Failure : Type 0 where
  bad_token : Failure
  unterminated : Failure
  no_fragment_name : Failure
  overflow : Failure
  no_tag_end : Failure
  no_comment_end : Failure
  no_tag : Failure
  stack_underflow : Failure
  read_past_end : Failure
  not_followed : Failure
  no_fuel : Failure

-- What a scan comes to. An error says at which token.
pub data Scanning {ℓ} (A : Type ℓ) : Type ℓ where
  done : A → Scanning A
  failed : Failure → Str → Scanning A

abbrev pub and_then {ℓ ℓ'} : {A : Type ℓ} {B : Type ℓ'} → Scanning A → (A → Scanning B) → Scanning B
and_then (done a) f = f a
and_then (failed why at) f = failed why at

-- What a round of a loop comes to.
pub data Round {ℓ} (S : Type ℓ) : Type ℓ where
  more : S → Round S
  ended : S → Round S

-- A loop, on fuel.
unfoldable pub run_on {ℓ} : {S : Type ℓ} → (S → Scanning S) → Round S → Scanning S
run_on go_on (more s) = go_on s
run_on go_on (ended s) = done s

unfoldable pub run {ℓ} : {S : Type ℓ} → (S → Scanning (Round S)) → ℕ → S → Scanning S
unfolding run_on
run step zero s = failed no_fuel []
run step (suc n) s = and_then (step s) (run_on (run step n))

-- `element->scanner`. `tag_inline` is hemp_element_tag_inline_scanner, which scans a tag within a tag and is not
-- followed.
pub data ScannerFunction : Type 0 where
  no_scanner : ScannerFunction
  squote : ScannerFunction
  dquote : ScannerFunction
  comment : ScannerFunction
  fragment_name : ScannerFunction
  tag_inline : ScannerFunction

-- What the scanner uses of struct hemp_element, for the operators of a grammar.
pub record Element : Type 0 where
  pub name : Str
  pub scanner : ScannerFunction
  pub start : Str
  pub end : Str

-- The type of a fragment: an operator's element, or one of the elements that the scanner names.
pub data ElementType : Type 0 where
  tag_start : ElementType
  tag_end : ElementType
  space : ElementType
  integer : ElementType
  number : ElementType
  word : ElementType
  tag_comment : ElementType
  text : ElementType
  eof : ElementType
  operator : Element → ElementType

-- `fragment->op.value`, or the flag HEMP_BE_SOURCE, which says that the token is the value.
pub data Payload : Type 0 where
  no_value : Payload
  is_source : Payload
  int_value : ℕ → Payload
  num_value : ℕ → Payload
  str_value : Str → Payload

pub record Fragment : Type 0 where
  pub element : ElementType
  pub token : Str
  pub position : ℕ
  pub length : ℕ
  pub value : Payload

-- `tag->to_eol`
pub data Skipper : Type 0 where
  to_eol : Skipper
  inline_to_eol : Skipper

-- `tag->scanner`. `control_tag` is hemp_tag_control_scanner, which prints a note, makes no fragment and leaves the
-- token unread; it is not followed.
pub data TagScanner : Type 0 where
  inline_tag : TagScanner
  outline_tag : TagScanner
  comment_tag : TagScanner
  control_tag : TagScanner

-- struct hemp_tag. `operators` has the roots of the prefix tree of its grammar.
pub record Tag : Type 0 where
  pub end : Str
  pub scanner : TagScanner
  pub skipper : Skipper
  pub operators : ℕ → Ptree Element

-- struct hemp_document, and the list of its fragments from `head` on.
pub record Document : Type 0 where
  pub scanptr : Str
  pub scantok : Str
  pub scanpos : ℕ
  pub fragments : List Fragment
  pub scantags : List Tag

-- `src - token`, of two pointers into the source
abbrev pub distance : Str → Str → ℕ
distance token src = length token - length src

-- `hemp_fragments_add_fragment`, with the value that the caller sets behind it
unfoldable pub add_fragment : ElementType → Payload → Str → ℕ → ℕ → Document → Document
add_fragment element value token position size document = record document {
  fragments =
      document.fragments
      ++ (record {
        element = element;
        token = token;
        position = position;
        length = size;
        value = value;
      }
          ∷ []);
}

-- `hemp_document_scanned_to`
unfoldable pub scanned_to : ElementType → Payload → Str → Document → Document
unfolding add_fragment
scanned_to element value src document =
    let size = distance document.scantok src in
    let added = add_fragment element value document.scantok document.scanpos size document in
    record added { scanptr = src; scantok = src; scanpos = document.scanpos + size }

-- `hemp_document_scanned`
unfoldable pub scanned : ElementType → Document → Document
unfolding scanned_to
scanned element document = scanned_to element no_value document.scanptr document

-- `hemp_fragments_add_eof`
unfoldable pub add_eof : Document → Document
unfolding add_fragment
add_eof document = add_fragment eof no_value [] document.scanpos 0 document

-- `hemp_document_enter_tag`, on the stack of tags from its top
unfoldable pub enter_tag : Tag → Document → Document
enter_tag tag document = record document { scantags = tag ∷ document.scantags }

abbrev pub rest_tags : Str → List Tag → Scanning (List Tag)
rest_tags at [] = failed stack_underflow at
rest_tags at (tag ∷ tags) = done tags

-- `hemp_document_leave_tag`
unfoldable pub leave_tag : Document → Scanning Document
leave_tag document = elim (rest_tags document.scanptr document.scantags) [
  | done tags ↦ done (record document { scantags = tags })
  | failed why at ↦ failed why at
]

-- The text of a fragment, in the source.
abbrev pub text_of : Fragment → Str
text_of f = take f.length f.token

-- The texts of fragments, one behind the other.
unfoldable pub texts : List Fragment → Str
texts [] = []
texts (f ∷ fs) = text_of f ++ texts fs
