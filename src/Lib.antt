-- ===== src/Lib.antt =====
-- A model of xgen-sdk, the shared library of a platform of agents, with the theorems that make its core
-- correct: who may decide an approval and how it ends, which token quota applies, how an agent is deployed
-- and shared, what a user is permitted, what a control policy masks, what a folder's archive holds, how a
-- stored object is encrypted, and how a compound file is read.
--
-- The parts and their files. Paths are from the repository's root.
--
-- - Prelude (Tests, Classes, Lists, Int, Dict, Counting): numbers, Boolean tests, equality as an instance argument, and
--   Python's dict as an association list in insertion order (Dict), with the laws of its keys.
-- - Py (Text, Result, Value, Bytes): what the Python code takes from its language. A str is a list of characters
--   (Text); an exception is a value of Result, whose do blocks follow the
--   order of the raises; Value is a JSON value with its truth test, and Field says what int(...) makes of a
--   field of a row.
-- - Approval.Line: src/xgen_sdk/approval/engine.py, plan_steps, is_open_slot, plan_line_slots,
--   open_slot_orders and fill_open_slots. A row is a record of two fields; the set of approvers that were
--   seen and the pairs (given order, index) are those of the code, and the sort is an insertion sort on the
--   same key, which is stable as Python's is.
-- - Approval.Blocks: src/xgen_sdk/approval/blocks.py, the registry of block types and which blocks of a form
--   are filled. json.loads is a parameter: a function from texts to an optional value.
-- - Approval.Engine: src/xgen_sdk/approval/engine.py, the state machine: open_steps, decide, advance and
--   cancel over a request and its steps. decide takes the blocks of the form and asks
--   Approval.Blocks.unfilled_upto, as the code does. The mutation of the copied steps in place is
--   update_first.
-- - Quota: src/xgen_sdk/quota/types.py, resolver.py and evaluator.py. The dictionaries of the resolver are
--   those of Prelude.Dict, so that the order of the result is the order of insertion.
-- - Deploy: src/xgen_sdk/deploy_state_machine.py, the stages of a deployment and every transition.
-- - Approval.Store: src/xgen_sdk/approval/store.py, the conditional updates of decide, cancel, system_cancel,
--   settle and finish over the rows of one request. Store.Simulation lays them beside the engine;
--   Store.Races is what several workers do at once, as lists of statements whose arguments are
--   whatever each worker read before; Store.Settling lays two settlements one behind the other.
--   A request with a follow-up line, and a claim that the database cannot record, are left out.
-- - Approval.Followup: src/xgen_sdk/approval/followup.py, decision with candidate_error, needs_selection,
--   can_finalize, allowed_ids, prepare_steps and availability (Followup.Lines), and snapshot, over Approval.Line and
--   Approval.Engine. What
--   the database answers under the locks is the record Live; the rows that are written are the result.
-- - Control.Outcome: src/xgen_sdk/control_policy/outcome.py and errors.py; the id that uuid makes is a
--   parameter.
-- - Control.Rules: src/xgen_sdk/control_policy/rules.py, partial_mask, MaskingRule, apply_rules and, in
--   Control.Rules.Compile, compile_rules and compile_rules_strict. The engine of the regular expressions
--   is a parameter: a pattern is what it finds in a text and the templates that it takes. A row holds values
--   of its columns' types. find_masked_spans is not modelled.
-- - Storage.FolderZip: src/xgen_sdk/storage/folder_zip.py, the names, the limits and plan_tree. The walk over
--   the queue is on fuel: one turn for the top folder and one for each folder row. str.casefold, the keys of
--   folders and their str are parameters. The zip itself is not written.
-- - Auth.Permissions, Auth.Roles: src/xgen_sdk/auth/permission_resolver.py. The answer of the
--   database is a parameter; a set of permissions is the list of its elements.
-- - Approval.Policy: src/xgen_sdk/approval/policy.py, get, is_required, set_policy, resolve_line and the
--   listings required_actions, required_for and locked_lines, over tables that are dictionaries. The
--   catalog of actions, a table of labels in approval/catalog.py, and the rows of a line are arguments of
--   the operations.
-- - Share: src/xgen_sdk/agent_share.py. Share.Parse reads the grants of a row, where json.loads is a
--   parameter; Share.Settings reads the settings through a callback that is a parameter; Share.Access is
--   what a person may do, and how grants widen and narrow; Share.Columns is what a write stores. Keys of
--   persons are ASCII digits.
-- - Control.Cfb: src/xgen_sdk/control_policy/_cfb.py. Control.Cfb is read; a stack that the code pops from its
--   end is a list with that end first. Cfb.Tree is _tree, whose links are the tree that they make;
--   Cfb.Placing is place and Cfb.Sizing the loop that finds the number of the FAT's and the DIFAT's sectors,
--   both within write, and Cfb.Layout the two together. Cfb.Chain, Cfb.Reading and Cfb.Tree.Balance are about them. The decoding of a name
--   is a parameter.
-- - Storage.Crypto: src/xgen_sdk/storage/crypto.py, the envelope. Crypto.Mode is the mode and the key, over a
--   record of what the process is set to; Crypto.Gcm is the AES-256-GCM cipher, whose AES object of
--   pycryptodome is a parameter with its documented laws (Gcm.Pieces.IsGcm), and so is the size of a
--   piece, _CHUNK_SIZE in the code; Crypto.Registry is the
--   registry and the functions of the module that go through it, over any ciphers that keep the contract of
--   FileCipher. A random header is an argument. Crypto.Files is decrypt_file and decrypt_file_inplace, over
--   files that are a function from paths.
--
-- Choices. A loop is structural recursion on a list where the code goes through one. The others are on fuel:
-- the walk over folders; the numbering of a name, whose 99,998 turns are those of the code; the loops over
-- the sectors and the entries of a compound file, where the fuel is one turn for each that can be visited and
-- one to stop; the search for the sizes of its tables; and the reading of a stream in chunks, where it is
-- one more than the bytes. Fuel that is used up gives an error of the
-- model's own, or what is done so far. A Python int that can be
-- negative is the type of integers; an order or a stamp that the code keeps above zero is a natural
-- number. The message of an exception is a constructor of its own error type; what the text interpolates is
-- an argument of the constructor. Parameters stand for code outside
-- the repository (json.loads, the database, uuid, the reader of settings) and for the catalog of actions.
--
-- Not modelled. The validation of incoming block values and the descriptions of blocks; the calendar periods
-- of a quota; the listings and the creation of requests in approval/store.py, the configuration and
-- the list of its follow-up lines, and the SQL of the other stores, which a database runs; the spans of
-- find_masked_spans; the clients of HTTP, Redis, object storage and the tokenizers; the readers of office files
-- but for their container, and the bytes that its write puts together; the encryption of files, and what the
-- operating system refuses; the vendor cipher under jeju_bank.
pub mod Prelude
pub mod Py
pub mod Deploy
pub mod Quota
pub mod Share
pub mod Auth
pub mod Control
pub mod Storage
pub mod Approval
