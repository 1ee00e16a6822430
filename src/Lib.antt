-- ===== src/Lib.antt =====
-- Verification of agent-desktop, a tool that lets agents observe and drive desktop applications
-- through their accessibility trees.
--
-- An adapter observes a window as a tree of accessibility nodes. A walk of the tree gives each
-- element that can be acted on a ref (`@e1`, `@e2`, ...), which a map kept with the snapshot
-- resolves to the element's entry. A caller names an element by its ref, qualified by the
-- snapshot, or by a query that is matched against what is read of the nodes. Before an action is
-- delivered it must pass the checks of actionability, under the policy that the caller has
-- chosen; the action waits for them until its deadline, is executed once, and is verified on what
-- is read afterwards.
--
-- The development models the platform independent core, crates/core/src:
--
--   Prelude, Text      shared lists, results and tests; texts as lists of code points, with the
--                      operations of Rust's str that the code uses, and decimal u32 numbers
--   Role, Roles        role.rs, roles.rs: tokens and classes of roles, role queries
--   Error              error_code.rs, adapter_error.rs, app_error.rs, delivery_semantics.rs,
--                      delivery_disposition.rs, retry_disposition.rs, retryability.rs
--   SnapshotId         refs.rs: new_snapshot_id, base36, validate_snapshot_id
--   RefToken           ref_token.rs: qualified refs and their resolution
--   Geometry           rect.rs
--   RefEntry           ref_entry.rs and its parts, refs_validate.rs
--   RefMap             refs.rs: the map from refs to entries, its allocation, removal, validation
--   Tree               node.rs, node_identity.rs, node_presentation.rs
--   RefAlloc           ref_alloc.rs and its options: the walk of allocate_refs
--   Policy, Action, Capability
--                      interaction_policy.rs, headed_requirement.rs, action.rs, action_request.rs,
--                      capability.rs, state.rs
--   Actionability      actionability/: requirements, gates, hit tests, report, stability sampler
--   SearchText, Locator
--                      search_text.rs and live_locator/: the verdict of a query on a node, the
--                      selection of matches, unique matches
--   NodeQuery          locator.rs, containment_predicate.rs, live_locator/compiled_clause.rs: queries
--                      with nested queries, whether a node of a snapshot tree matches one;
--                      live_locator/validate.rs: the limits of a query
--   Identifiers        live_locator/identifier_evidence.rs
--   RefIdentity        ref_identity.rs: whether a live element is the one of a ref entry
--   Deadline           deadline.rs, wait_budget.rs: deadlines, and the scopes that inherit them
--   RefAction          ref_action_poll.rs, ref_action_poll_state.rs, ref_resolve_deadline.rs,
--                      ref_action_wait_evidence.rs: the loop that waits for a target;
--                      ref_action.rs: the preflight that the loop runs (RefAction.Preflight);
--                      ref_action.rs, ref_action_single.rs, ref_action_wait.rs: the dispatch
--   PostAction         post_action.rs, value_matches.rs, action_result.rs: an action is executed
--                      and verified
--   SnapshotStore      refs_store_prune.rs: which snapshots are evicted
--   LiveCheck          actionability/live.rs: the live element behind the checks
--   Examples           the theorems at concrete inputs
--
-- State is passed explicitly: an operation of the map takes the map and returns it changed, and
-- an error drops the change, as the callers do. A node's fields but for its children are one
-- record, so that the walks recurse on a tree and a list of trees. Errors are values of `Result`.
-- A HashMap is an association list; theorems that need its keys to differ say so. An f64 is its
-- bit pattern.
--
-- Parameters stand for code that is not in the repository: `hash` for the rounding and the Fx
-- hash of a rectangle, `arithmetic` for the f64 operations, `hit_test` for the answers of an
-- adapter in the order of the calls, `to_lowercase` for char::to_lowercase beyond ASCII, and the
-- argument of `new_snapshot_id` for the mixed time, process and counter; no hypothesis is made on
-- them, but that of `IsReadOnly` on the errors of hit tests. `parse_f64` stands for
-- str::parse::<f64>. An adapter with its clock is a record of
-- functions on a world `W` (RefAction.Preflight.LiveAdapter, RefAction.Dispatch.ActionPort,
-- PostAction.Execute.ElementPort; RefAction.Poll.Platform is an adapter with any preflight), and
-- the hypotheses on it are records: `IsClock` and `PortClock` (a sleep lasts as long as it is
-- asked to, and the clock does not run back), `IsReadOnly` (the error of a read reports no
-- delivery), `Counts` and `Performs` (only execute_action performs an action).
--
-- The walks are structural recursions. `base36` and the decimal digits run on fuel, 13 digits for
-- a 64-bit number and 10 for a 32-bit one; that this is enough is part of the theorems on their
-- results. The poll loop runs on fuel, and needs a round for each 16 ms until its deadline and
-- one more; the settling loop needs 8 rounds of 50 ms. The sampling loop of the dispatch runs on
-- fuel too, and its theorem holds with any. Time passes in the calls of an adapter and in the
-- sleeps, so that two readings of the clock with no call between them agree. Counters of the
-- source's width wrap as written.
--
-- Not modelled: the adapters (crates/macos, crates/windows, crates/linux), the C interface
-- (crates/ffi), the command line, files, locks, sessions, traces and the cursor overlay, which
-- are input and output; the texts that messages interpolate and the JSON of details; the
-- evaluation of live queries over a whole observed tree; the state of a process
-- that is added to the errors of a ref action, and the focus of its window.
pub mod Prelude
pub mod Text
pub mod Role
pub mod Roles
pub mod Error
pub mod SnapshotId
pub mod RefToken
pub mod Geometry
pub mod RefEntry
pub mod RefMap
pub mod Tree
pub mod RefAlloc
pub mod Policy
pub mod Action
pub mod Capability
pub mod Actionability
pub mod SearchText
pub mod Locator
mod Examples
pub mod Deadline
pub mod RefAction
pub mod PostAction
pub mod Identifiers
pub mod RefIdentity
pub mod LiveCheck
pub mod SnapshotStore
pub mod NodeQuery
