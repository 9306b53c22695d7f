-- ===== src/Lib.antt =====
-- A model of aikido, a Go library for language model agents.
--
-- The program. A session (agent/) runs turns: it asks a provider (llm/, llm/openrouter/) for a
-- stream of events, drains it, gives the tool calls to a registry (tools/), puts the answers behind
-- the messages and asks again, until a turn has no call or the turns are used up. The messages of
-- the run go to a history (agent/history/) in one append. The built-in tools read and change files
-- of a storage (vfs/). Calls of a provider can be repeated (retry/, llm/helpers.go).
--
-- The files and the code:
--   Prelude, Prelude/...   texts as bytes, lists, Go maps as association lists, sorting, `int`
--   Errors                 the errors of all packages as one type, contexts, a result with panics
--   Vfs/Path, Vfs/ContentType, Vfs/Storage   vfs/path.go, contenttype.go, storage.go; the laws of a
--                          backend are those of vfs/conformance.go
--   Vfs/Memory             vfs/memory/storage.go
--   Llm/Types              llm/message.go, client.go, tooldef.go, thinking.go
--   Llm/Collect            llm/helpers.go: Collect, CollectWithRetry
--   Llm/Vocabulary, Llm/Levenshtein   llm/vocabulary.go: promptLine, tokenize, matchAt, Correct;
--                          levenshtein
--   Retry                  retry/retry.go: Do, computeBackoff
--   Openrouter/Wire        llm/openrouter/api_types.go: the shapes of a streamed answer
--   Openrouter/Assembler, Openrouter/Content, Openrouter/Stream   llm/openrouter/sse.go:
--                          toolCallAssembler; the decoders; processStream
--   Openrouter/Request     llm/openrouter/api_types.go: buildAPIMessages, buildContentParts,
--                          buildAPITools, effortFromConfig
--   Openrouter/Failures    llm/openrouter/retry.go
--   Codex/Stream, Codex/Request   llm/codex/client.go: processStream, Complete, buildBody
--   Voice/Sentences, Voice/Speaker   voice/speakable.go: splitSentences, voice/voice.go: speaker
--   Tools/Handler, Tools/Registry   tools/handler.go, tools/registry.go
--   Agent/Policy, Agent/Lines, Agent/Utf8, Agent/Replace   the helpers of agent/tools_builtin.go
--   Agent/ReadFile, Agent/WriteFile, Agent/EditFile, Agent/Listing   its handlers for read_file,
--                          write_file, delete_file, edit_file, list_files and search
--   Agent/Glob, Agent/Grep   agent/tools_grep.go
--   Agent/VfsTools         agent/tools_register.go: RegisterVFSTools
--   Agent/History          agent/history.go and agent/history/memory/history.go
--   Agent/Event, Agent/Drain   agent/event.go, agent/drain.go
--   Agent/Locker           agent/locker.go: LocalLocker, as steps of concurrent calls
--   Agent/Session          agent/session.go, agent/local.go: NewSession, NewLocalSession
--   Agent/Run              agent/run.go
--   Examples               a small session on which the theorems are tried
--
-- How the code is modelled. A text is the list of its bytes. Every call of a context, the
-- locker, the clock, the provider, encoding/json, encoding/base64, regexp, strconv and floating
-- point answers through a parameter. A storage and a history are records of operations over a
-- state of their own, with the laws that their clients rely on, a call being atomic as the
-- interface promises; Vfs/Storage/Conformance and Agent/History/Conformance hold what the
-- conformance suites test; the tools act on a world that a run threads through. A goroutine that
-- sends on a channel is the list of what it sends, where the outcome of a select with the
-- context's end is a parameter: each channel has one sender and one receiver, and a sender that
-- waits for ever is not modelled. Methods that hold a mutex throughout are one step. A Go panic
-- is a value, since nothing in the repository recovers.
--
-- Bounds. Recursion is structural throughout: the turn loop on the turns that are left, the
-- retry loop on the attempts that are left, scanners on the text, `Correct` on the tokens. `int`
-- is unbounded but for the sum of offset and limit in read_file and for the nanoseconds of a
-- Retry-After, which wrap around at 64 bits; sizes of texts and lists stay below 2^63. Case
-- folding, white space and `strings.ToLower` are those of ASCII, but for the vocabulary, which
-- takes the tables of Unicode as a parameter, and for `splitSentences`, which has the white
-- space of Unicode.
--
-- Not modelled: the HTTP calls and the other endpoints of llm/openrouter; the two file system
-- backends, which call the operating system; the HTTP calls and logins of llm/codex; the
-- transcription and synthesis of voice/ and its HTTP handler; the command line and the examples.
-- Most human-readable error texts are dropped; an error keeps its kind and the values it is made
-- with.
pub mod Prelude
pub mod Errors
pub mod Vfs
pub mod Llm
pub mod Tools
pub mod Agent
pub mod Retry
pub mod Openrouter
pub mod Codex
pub mod Voice
pub mod Examples
