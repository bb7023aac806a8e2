-- ===== src/Lib.antt =====
-- harmony-go renders conversations in the Harmony format to tokens and parses tokens back.
--
-- tokenizer/ turns text into tokens. Its core (tokenizer/bpe.go) cuts a text into segments by the
-- segmenter (tokenizer/segmenter.go), looks each segment up in the vocabulary or merges its bytes
-- by rank, and emits special literals where they are allowed; it decodes by a store of token texts
-- (tokenizer/decoder_store_heap.go, or decoder_store_arena.go in a build with arenas).
--
-- The stream parser (parser.go) takes tokens one by one, decodes the header of each message, reads
-- its parts (header_helpers.go) and gathers its content. Conversations are rendered by encoding.go.
--
-- Which file models which part:
--   Prelude               tests, lists over native numbers, slices, maps as association lists
--   Tokenizer/Utf8        utf8.DecodeRuneInString and unicode.IsSpace, as the segmenter uses them
--   Tokenizer/Segmenter   tokenizer/segmenter.go: Next and its rules
--   Tokenizer/Bpe         tokenizer/bpe.go: getRank, bytePairMerge, bytePairEncode
--   Tokenizer/Store       tokenizer/decoder_store_iface.go and decoder_store_heap.go
--   Tokenizer/Store/Arena tokenizer/decoder_store_arena.go
--   Tokenizer/Core        tokenizer/bpe.go: coreBPE, Encode, encodeInto, matchSpecialAt, decoding
--   Text                  the functions of the strings package that the header helpers use
--   Types                 types.go: roles, authors, contents, messages
--   Header                header_helpers.go
--   Tokenizer/Literals    tokenizer/specials.go: the tokens of the format, the special literals
--   Tokenizer/Loader      tokenizer/loader.go: the lines of the vocabulary file
--   Encoding              encoding.go: the encoding, its format tokens and stop tokens
--   Encoding/Select       encoding.go: which messages RenderConversation renders
--   Encoding/Estimate     encoding.go: estimated sizes, shouldParallelRender
--   Json                  the values of encoding/json, how they are read and printed
--   Schema                render_tools.go: renderSchemaObjectWithOrder, schemaToTS
--   Schema/Types          types, their schemas and their texts, described without schemaToTS
--   Sections              render_tools.go and render_system.go: the texts of the sections
--   Render                encoding.go: renderMessage, renderMessageInto and what they call
--   Render/Conversation   encoding.go: RenderConversation, ForCompletion and ForTraining
--   Render/Spec           the text and the error of a message, described without the encoder
--   Render/Chat           the chat messages, which are read back whole
--   Render/Loaded         encoding.go: LoadEncoding over the pairs of the vocabulary
--   Parser                parser.go, and ParseMessagesFromCompletionTokens of encoding.go
--
-- A string is its list of bytes; a token and a rank are natural numbers below 2^32; a Go map is an
-- association list in the order of its `range` loop, an arbitrary one. The buffer pools have no
-- state here, since the buffers that they hand out are emptied before use. A recursion that is not
-- over a list takes fuel: a scan of the segmenter the length of the text, a merge the number of
-- parts, the encoder one round more than the text has bytes, and so the loop of the header helpers
-- that strips channels; the theorems show that this is enough. A trim of spaces has a round for
-- each byte of the text, and each round that goes on drops a byte at least.
--
-- A line of a comment or of the vocabulary file takes a round, and a text has at most one more lines
-- than bytes. A schema is rendered with its depth as fuel, which every schema inside is below; the
-- keys that a given order of properties leaves out come in the order of the document, where the code
-- takes them as the map's loop comes to them. A decimal of a token has at most ten digits.
--
-- The goroutines of RenderConversation write to places of their own; what a result depends on is
-- the order in which they come to their errors, which is a parameter (Schedule), as is the switch
-- of the environment for parallel rendering. json.Unmarshal and strings.ToLower of a text that is
-- not ASCII are parameters too (Library), with no hypothesis about them.
--
-- Not modelled: the JSON codecs of types.go, which call encoding/json; the loader
-- finds, downloads and hashes its file (only the text of the file is modelled), and the command line
-- reads and writes JSON. The cache of parsed schemas and presizing
-- of buffers have no effect on a result.
--
-- The Unicode tables of letters and numbers (unicode.L, unicode.M, unicode.N) are a parameter of
-- the segmenter, with no hypothesis about them.
mod Prelude
pub mod Tokenizer
pub mod Text
pub mod Types
pub mod Header
pub mod Parser
pub mod Encoding
pub mod Json
pub mod Schema
pub mod Sections
pub mod Render
