-- ===== src/Lib.antt =====
-- QwFNfer-xpu runs one mixture-of-experts language model on a small GPU: an engine evaluates
-- tokens, with draft tokens proposed ahead and verified together, and a server shares that one
-- engine among conversations. This library models the parts that decide: which tokens are drafted,
-- which window a step uses, which request has the engine, from which saved state a conversation
-- continues, which expert's block has which slot of memory, and what of an attached file is read.
--
-- Base passes on the names the other modules share. Double is the arithmetic of `double`, an
-- interface: the code's decisions are read off comparisons of an unspecified arithmetic, and where
-- a theorem needs an order it says so (`IsOrdered`).
--
-- Lookup is src/qwfn_lookup.h and src/qwfn_lookup.cpp. Lookup/Drafter is `lookup_drafter`, the
-- index of the trigrams of a request's history: the table is a function from slots, the probing
-- loop runs on the code's own 64 rounds, the matching loop on `max_match_`, and the growing loop on
-- 64 rounds, one for each bit of a size. A size wraps at 64 bits: where twice the capacity passes
-- 2^63 the code's loop never ends, and of such capacities nothing is claimed. Its children follow the proposal (Matches), the index
-- (Index) and the most recent positions (Recent). Lookup/Policy is `lookup_policy`, the choice
-- between the draft head and the lookup window; its children follow the switching (Hysteresis) and
-- the samples of cost (Samples). `describe`, which prints, is left out.
--
-- Timeshare is `struct timeshare` of tools/qwfn_server.cpp, the scheduler. Each section under its
-- mutex is one function of the state; a ticket is named by its id, and a time is a number of clock
-- ticks. Timeshare/System composes them as steps in any order, which stand for the interleavings of
-- the server's threads. Condition variables only decide when a waiting request looks again; a step
-- of `poll` may come at any time. Timeshare/Charge follows two charges at one instant, Timeshare/Fresh
-- is the scheduler before any request. `to_json` is left out.
--
-- Prefix is the prefix cache of tools/qwfn_server.cpp: `prefix_entry`, `prefix_reuse`, the `pool_*`
-- functions and the head of `generate`. Prefix/Engine holds the interface to the engine's
-- checkpoints and to the JSON message list. Prefix/Server has the state and the functions; the
-- eviction loop runs on the pool's length, which suffices since each round erases an entry.
-- Prefix/Saves and Prefix/Switches list the ways in which a save and the head of `generate` can
-- end, and the other children prove what holds at each: the accounts (Accounts), the budget (Room),
-- the entry spared (Keep), the search (Longest), the engine's tokens (Restore, Continue). A
-- checkpoint buffer that `pool_boundary_save` reuses is a plain value here; the log and the live
-- counters are left out.
--
-- Ple is src/qwfn_ple.h and src/qwfn_ple.cpp, the n-gram embedding table. Ple/Rows is
-- `ple_rows_for`; Ple/Cache is `ple_table`, where a slot's memory is the row whose bytes it holds
-- and the io engine is a parameter that fails or returns the order in which the reads land;
-- Ple/Asks says what the look-up of a gather leaves, and Ple/Gather what the gather serves. A
-- failed gather leaves the memory as it was in the model: the slots it read into are not valid.
-- `gather_batch` is left out.
--
-- Experts is src/qwfn_expert_cache.h and src/qwfn_expert_cache.cpp, the cache of expert blocks in
-- RAM and VRAM. Experts/Cache is its state: vectors are functions of the index, SLOT_EMPTY and -1
-- are none, and the pool that an operation works on is taken from the layers and put back.
-- Experts/Victim has the choices by sampling, whose generators are explicit; Experts/Promote is
-- `promote`; Experts/Fetch serves the experts of a token; Experts/Settle finishes promotions and
-- swaps; Experts/Speculative is the speculative reads; Experts/Session puts them together as the
-- engine calls them. The files' byte ranges and the answers of the io engines are parameters:
-- whether requests are submitted and drained, and the tags of each round of completions. The waits
-- for speculative reads run on the count of outstanding reads. The copies of bytes and their
-- layouts, the statistics, the placement, the lending of VRAM to a prefill and the warm start are
-- left out.
--
-- Text is `looks_like_text` of src/qwfn_files.cpp. Text/Utf8 has the check, whose rounds are the
-- number of bytes, since each takes one or more; Text/Encoding has the encoding of Unicode, written
-- apart from it, and Text/Accepts compares the two. Text/Cut is the place where `append_file` cuts
-- a file.
--
-- Archive is the zip archives of src/qwfn_files.cpp: `zip_directory`, `zip_as_text` and
-- `append_file`. A byte read outside the file is a result of its own; the inflate of stb_image is a
-- parameter. The search for the end record and the loop over the entries run on their own counts.
-- Of the lines that name a file which was not read, the model keeps the path and the reason.
-- Archive/Reads follows the reads, Archive/Explains the reasons, Archive/Account what becomes of each
-- file. Archive/Attachment is `file_as_text`.
--
-- Argmax is src/qwfn_argmax.h, on values of a Double; the loop over the values runs on their
-- number.
--
-- Decode is the prefill and the decode loop of `generate` in tools/qwfn_server.cpp. Decode/Parts is
-- the interface to the engine, the sampler, the vocabulary, the client and the windows' policy, and
-- `Exact` what the engine's header documents of it. Decode/Prefill is the passes over the prompt
-- before it, on as much fuel as the prompt has tokens, since a pass takes one or more. Decode/Reply
-- is what a token does to the reply, Decode/Drafts the choice of the drafts, Decode/Verify their
-- verification, Decode/Loop the iterations, which run on the tokens left of the budget.
-- Decode/Reference generates without drafts; Lossless compares the two, and Consumed follows what
-- the engine holds. Drafts sampled at a temperature, the yield points and a client that leaves are
-- left out.
--
-- State is the traversal, saving, restoring and `reset` of src/qwfn_state.cpp. A tensor is its
-- bytes, the callback that `for_checkpoint` is given a function with a state of its own;
-- State/RoundTrip follows a checkpoint there and back, State/Sizes its room, State/Again a save of
-- what was restored. Allocation is left out.
--
-- Engine is `reset` and the `checkpoint_*` of src/qwfn_engine.cpp, over the fields that they touch,
-- a float as its bit pattern; Engine/Restores follows a checkpoint into another engine,
-- Engine/Bytes is its room.
--
-- Not modelled: the ggml graphs, the device code and the weights; HTTP, JSON and sampling in the
-- server; the io back ends; the command-line tools, tests and benchmarks.
pub mod Base
pub mod Double
pub mod Lookup
pub mod Timeshare
pub mod Prefix
pub mod Ple
pub mod State
pub mod Text
pub mod Archive
pub mod Argmax
pub mod Decode
pub mod Engine
pub mod Experts
