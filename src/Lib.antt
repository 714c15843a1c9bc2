-- ===== src/Lib.antt =====
-- Casper: the service that lets a chat model, and a person's friends, use that person's machines.
--
-- The program is a Python service (casper_service/), a daemon on each machine (agent/, in Go), a
-- relay between the two (relay/, in Go) and a command line client (harness/). This library models
-- the decisions that the service takes for itself, in six parts.
--
-- * Policy (casper_service/policy.py): which rule decides a shell command. `pattern_matches`,
--   `find_option`, `rule_matches`, `compose_policy` and `match_policy` are the functions of those
--   names, `_` in front left out; each loop is a function on the list that it runs over. A regular
--   expression is matched by google-re2, which is the parameter `search`. Policy.Describe has the
--   rendering of rules in prose.
-- * Trust (casper_service/trust.py, on the tables of casper_service/db.py): friends, offerings,
--   access requests, grants and invites. `Trust.Data.Db` is the database, a list of rows for each
--   table; a statement is a function on it, a query is a selection from a list, in the order of the
--   ids. An operation is an `Action`: it returns a value and the database it leaves, or the
--   `TrustError` it raises, and then `get_db` rolls back what it wrote. The clock is an argument,
--   read once in each operation; so is the code that an invite is created with. The digest of a
--   code is the parameter `sha256`. Trust.Users, Trust.Grants, Trust.Friends, Trust.Offerings and
--   Trust.Invites hold the operations (and Trust.Groups those on groups), in the order of the source.
-- * Conversations (casper_service/conversations.py): the turn behind POST /conversations/step. The
--   daemons, the model, the server storage and the store of pending approvals are the record
--   `Services`, whose answers may depend on all that was asked before. An effect is a function from
--   the list of the events so far to a value and the longer list. Conversations.Hosts resolves a
--   host and builds the tools, Conversations.Dispatch sends a call to a daemon,
--   Conversations.Turns is the loop.
-- * Mirroring (casper_service/mirroring.py): `desired_state`, what a Mac mirrors and holds, on the
--   tables of Trust and those of mirroring. Casper's own catcher and the relays are parameters.
--   Mirroring.Reports has the reports of protection, and the creation of a folder.
-- * Backups (casper_service/backups.py): a backup's row from `push` to `delete`, the moves of its
--   chunks between two daemons, the decision of the destination's owner, the restore. An effect is a
--   function on a `World`, the tables and the events so far; it returns, raises `BackupError` or
--   `KeyError`, or uses up the rounds of waiting that the model allows. The daemons, the
--   connected hosts and the clock are the record `Deps`, whose answers may depend on all that happened.
--   Backups.Triples and Backups.Effects have the rules for effects, the modules behind them
--   (Chunks, Outcomes, Sending, Endings, Termination) what the effects of a transfer come to.
-- * Service (casper_service/main.py): the rate limit (Rates), accounts and the tokens of their sessions
--   (Accounts), policy layers and their rules (Layers, Requests, RuleUpdates), pairing and forgetting hosts (Hosts),
--   environments (Environments), the storage of files (Storage), pairing by code (Codes) and
--   pending approvals (Approvals), where what acts on a decision is a parameter. `Store` is the
--   database; a `Request` returns a value and the database it leaves, or raises an
--   `HTTPException`, and then nothing is committed. The digest of tokens, bcrypt and base64
--   are parameters, and so is whether re2 compiles a pattern; what is drawn at random is an argument.
--
-- The parts meet in four places: Backups and Mirroring read the tables of Trust, the rules that the
-- requests on layers store are those that Policy composes and matches, the tools that the model is
-- offered describe each machine's composed policy (`Conversations.Hosts.policy_lines`), and Common
-- has what all of them use.
--
-- Loops over lists fall with the list, without a bound. The loop of `run_turn` goes on for as long
-- as the model calls tools, so `rounds` takes the largest number of rounds, and `none` is a run that
-- was cut off there. The statement on `run_turn` is on the events of the run, and holds for every
-- number of rounds. The loop in `transfer` that waits for the encryption takes the number of its
-- rounds too; a round sleeps, so the seconds of its time-out, and two, are enough.
--
-- Not modelled: the texts that results and approvals are rendered to (they are constructors over their
-- parts), the schemas of the tools, the look-up of folders and grants by name, validation of request bodies
-- (casper_service/models.py) but that of an updated rule, the routing of the HTTP service and its endpoints for lists, the presence of
-- hosts, profiles and mirroring (casper_service/main.py), what threads do at once, the
-- guide, the mail, the MCP server, the client, and the programs written in Go. The white space and
-- the letter case of codes and names are those of ASCII; times are whole numbers. An answer of a
-- daemon is one that parses: the error of a body that is no JSON is left out, and its counts of chunks
-- and bytes are natural numbers.
pub mod Common
pub mod Policy
pub mod Trust
pub mod Conversations
pub mod Mirroring
pub mod Backups
pub mod Service
