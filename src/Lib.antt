-- ===== src/Lib.antt =====
-- A model of the core of Hemp, a template language and its library in C, with the theorems that
-- make it correct. Bytes and machine words are native natural numbers; a C string is the list of
-- its bytes before the NUL; NULL and `HempMissing` are `none`. Memory is taken to be there, since
-- `hemp_mem_fail` ends the program otherwise.
--
-- The parts and their files:
-- Base, Chars: shared names, lists under native indices, and what the sources use of <ctype.h>
--   and <string.h>.
-- Hash: library/type/hash.c and include/hemp/type/hash.h. Hash/Table has a function for each of
--   `hemp_hash_init`, `_grow`, `_store_keylen`, `_store`, `_fetch_keylen`, `_fetch`, `_delete`,
--   `_each` and `hemp_type_hash_pairs`; Hash/Match has `hemp_hash_key_match` and Hash/Jenkins the
--   hash function, which the table takes as an instance. A table stands for a map from hash values
--   (`view`), and Hash/Laws, Hash/Grow and Hash/Walk say what the operations do to it.
-- Uri: library/uri.c. Uri/Split and Uri/Join have `hemp_uri_split` and `hemp_uri_join`, Uri/Parts
--   `hemp_uri_split_path` and `hemp_uri_split_query` (whose parameters go to a hash table), Uri/Paths
--   `hemp_uri_path_join`, `hemp_uri_merge_paths` and `hemp_uri_collapse_path`, Uri/Relative
--   `hemp_uri_relative_uri`; Uri/Text, Uri/PartLaws, Uri/JoinLaws and Uri/Collapse have their laws.
--   Uri/Queries has how a query is read, Uri/Whole puts `hemp_uri_split` together from the matchers
--   and the splits of the path and the query, Uri/Joined `hemp_uri_relative_uri` from the choice of the parts and their join.
-- ListType: library/type/list.c. ListType/Items has `hemp_list_init`, `_grow`, `_resize`, `_copy`,
--   `_push`, `_push_list`, `_shift`, `_pop` and `hemp_type_list_fetch` and `_store` over the allocated
--   cells, where an access outside of them is an answer of its own; ListType/Cells has the cells,
--   ListType/Laws the invariant and the sequence of items that a list stands for, ListType/Ends the two
--   ends, ListType/Stores the positions. ListType/Pushes has a new list that items are pushed on one by
--   one, as the functions that split a string do.
-- Strings: library/type/string.c. Strings/Scan has `hemp_string_wordlike`, `_intlike`, `_next_space`,
--   `_next_nonspace`, `_next_line`, `_trim`, `_chomp`, `_split`, `_nwords` and `_location`;
--   Strings/Laws is about splitting and trimming, Strings/Words about the words, Strings/Lines about
--   the lines.
-- Elements: the expression parser of library/element.c, library/parser.c, library/fragment.c and
--   library/element/{operator,literal,space,bracket}.c. Elements/Roles has the element types by their
--   parsing functions, Elements/Parser those functions: `hemp_element_parse_prefix`, `_parse_postfix`,
--   `_parse_infix_left`, `_parse_infix_right`, `_brackets_parse`, `hemp_parse_exprs` and
--   `hemp_fragment_parse`. Elements/Trees says what a tree is to the fragments it was parsed from, and
--   Elements/Calls, Sound and Laws that the parser makes such trees. The calls between the functions
--   run on fuel: two rounds for each fragment and three more.
-- Values: include/hemp/value.h and the operators of library/element/{boolean,compare,number}.c.
--   Values/Word has the words of 64 bits with their tags, Values/Logic and Values/Number the operators
--   as functions of what the operands come to, Values/Signed the machine's integers; Values/Laws,
--   Values/Arithmetic and Values/Operators have their laws. The arithmetic of doubles is a parameter.
-- Texts: library/type/text.c. Texts/Buffer has `hemp_text_init_size`, `_capacity`, `_append_text`,
--   `_append_stringn`, `_insert_string`, `_replace_string`, `_truncate`, `_from_text` and
--   `_from_string` over the allocated bytes, with sizes modulo 2 ^ 64; Texts/Laws is about the growth
--   and appending, Texts/Moves and Texts/Edits about the others.
-- Lru: library/cache.c. Lru/Slots has `hemp_cache_lru_use_slot`, `_reuse_slot`, `_freshen_slot` and
--   `_unused_slot` over the fields of the slots, where a pointer is the slot's number in the pool;
--   Lru/Cache has `hemp_cache_lru_fetch`, `_store`, `_delete` and `_empty`, with the hash table of Hash
--   as the index. Lru/Links is about chains of fields, Lru/Order about the list from the freshest slot
--   to the stalest, Lru/Laws about what the cache holds. The loop of `_empty` runs on fuel: one round
--   for each slot of the list.
-- Pools: library/pool.c, with `hemp_pool_init`, `_take` and `_grow` over the sizes of the slabs of
--   library/slab.c.
-- Ptrees: library/ptree.c. Ptrees/Tree has `hemp_ptree_store`, `_fetch`, `_node` and
--   `hemp_pnode_match_more` from the root of a tree on, with the position of that root. Ptrees/Laws says
--   what a tree has for a key, Ptrees/Stores and Duplicates what a store does to that, Ptrees/Fetch and
--   RoundTrip what is fetched, and Ptrees/Match where a match leaves the source.
-- Scans: the scanner. Scans/Document has the state of a scan of include/hemp/document.h, with
--   `hemp_fragments_add_fragment`, `hemp_document_scanned` and `_scanned_to`; Scans/Quoted the scanners of
--   library/element/quoted.c, Scans/Tokens library/scanner.c and the scanners of comments and fragment names
--   under library/element/, Scans/Tags the scanners of library/tag/{inline,outline,comment}.c and
--   `hemp_grammar_scanner`, Scans/Tagset `hemp_tagset_scanner`. A pointer into the source is a suffix of it;
--   what strtol and strtod read is a parameter. Where the code reads behind the NUL of the source, meets a
--   control tag (library/tag/control.c) or the scanner of a tag within a tag (library/element/tag.c), the model stops
--   with a failure of its own. The loops run on fuel, one round for each character and one
--   more. Scans/Told is about what fragments tell of the source; Walks, TokenLaws, TagLaws, LoopLaws,
--   ScannerLaws, Lossless, Places and TagsetLaws carry that through the scanners, from tokens to documents; Quotes is
--   about strings in quotes.
-- Contexts: library/context.c and library/frame.c. Contexts/Vars has `hemp_context_enter`, `_leave`, `_with`,
--   `_just`, `_without`, `_focus_params`, `_blur_params` and `_set` over a store of the hash tables of Hash with
--   their parents; Contexts/Runs the calls that library/element/{word,apply}.c and the commands under
--   library/element/command/ make. Kept, Frames, Tables, Calls and Laws are about what they leave as it was.
-- Params: library/proto.c and the resolution of parameters in library/type/code.c. Params/Proto has
--   `hemp_proto_add_item`, `_add_list` and `_add_hash`, Params/Resolve `hemp_type_code_resolve_proto` with its two
--   callers; a fatal error is a value there. The table of variables is a table of Hash, the values are those that
--   are not the missing value. Params/Built is about the prototypes that declarations build, Outcomes about how a
--   call ends, Reads about what its variables read.
-- Registry: library/factory.c and library/grammar.c. Registry/Splits has `hemp_string_splits` of
--   library/type/string.c, Registry/Factory `hemp_factory_register`, `_constructor` and `_instance`, Registry/Forest
--   `hemp_ptree_store` and `_fetch` over the eight roots of a tree, with the trees of Ptrees, Registry/Grammar
--   `hemp_grammar_new_element`, `_add_element` and `_element`. The tables are those of Hash; what an action answers
--   and does to the factory (a wildcard registers elements there), what an autoload function answers, and what a
--   constructor makes of an element, are parameters. Registry/Lookups and
--   Single are about factories, Elements and Additions about grammars.
--
-- Loops over a source text run on fuel, one round for each byte and one more, which is proved to be
-- enough, for the words where they have no limit: every round passes over a byte at least. The growth
-- of a list has a round for each item asked for, which is enough since each adds one to the size.
--
-- Not modelled: the registration of tags in tag sets, the evaluation of elements but for the operators
-- above, the conversions of values through the tables of types, the construction and output of documents,
-- viewers, loading of modules and all input and output.
pub mod Base
pub mod Chars
pub mod Contexts
pub mod Elements
pub mod Hash
pub mod ListType
pub mod Lru
pub mod Params
pub mod Pools
pub mod Ptrees
pub mod Registry
pub mod Scans
pub mod Strings
pub mod Texts
pub mod Uri
pub mod Values
