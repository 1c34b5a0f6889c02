-- ===== src/Lib.antt =====
-- Aqueduct runs data pipelines written as YAML Blueprints on Spark, and lets a language model heal
-- a failed run by a patch of the Blueprint. This library models the decisions of that healing and of
-- the patches, the order and the wiring of a Blueprint's modules, and the run of them, apart from
-- the network and Spark.
--
-- The parts:
-- * Base holds Python's `==`, `in` and the tests on numbers, lists and texts that the parts share.
-- * Graph has what the graph algorithms share: Graph.Arcs the arcs in the order in which the code
--   adds them to its dicts, Graph.Walk the walks along them, Graph.Kahn the loop that
--   `detect_cycles` and `topological_order` of parser/graph.py and `_topo_sort` of the executor
--   have in common, Graph.Search the breadth-first search of the executor.
-- * Parser (aqueduct/parser): Parser.Models has the modules and edges of models.py, Parser.Graph
--   the functions of graph.py, and the graph validation of `parse_dict` in parser.py.
-- * Compiler (aqueduct/compiler): Compiler.Wirer is wirer.py; the order in which Python walks a set
--   of names is a parameter (`iterate`). Compiler.Expander is expander.py: `_expand_single`, the
--   references in `inputs` (Inputs), and `_expand_recursive` (Arcades); the files and `parse` are
--   parameters.
-- * Patch (aqueduct/patch): Patch.Value is a YAML or JSON document, a tree without shared parts;
--   Patch.Grammar the operations of grammar.py, and Patch.Aliases its `_normalize_op_aliases`;
--   Patch.Result the error of an operation (`op_error`), or any other exception (`crash`);
--   Patch.Blueprint the helpers of operations.py,
--   and Patch.Operations its functions, one for each operation, and `apply_operation` for its
--   dispatch table; Patch.Guardrails is `_check_guardrails` of apply.py with its helpers;
--   Patch.Apply is `apply_patch_to_dict` and `apply_patch_file`, step by step over the files
--   (`Disk`). What ruamel, json, pydantic, fnmatch, `str` and the parser do is a parameter
--   (`reload`, `show`, `fnmatch`, `Files`).
-- * Agent (aqueduct/agent): Agent.Budget is budget.py, the tracker of a heal and its stop axes;
--   Agent.Attempt is the state of `generate_agent_patch` of loop.py and how an attempt is recorded,
--   and Agent.Loop the function, in one function for each phase of a round (call, parse, defer,
--   validate, apply); Agent.Cascade is cascade.py, which runs that loop for each tier. An exception
--   of the parser of answers that the loop does not catch leaves both (`raises`). The provider, the
--   parser of answers, the callbacks, the clock and the prompts are fields of `Env`, indexed by the
--   attempt. A time is a natural number of ticks.
-- * Executor (aqueduct/executor): Executor.Models has the records, Executor.Retry the retry loop of
--   spark/executor.py, Executor.Exhaustion what follows its failure. A delay with jitter is counted
--   in units of 1 / (2 * unit) seconds, so that it stays a natural number. Executor.Order is
--   `_topo_sort` and `_build_execution_order`, over the modules of the Parser,
--   Executor.Selection the searches and the selectors `--from` and `--to`, and Executor.Components
--   the union-find of `_find_connected_components`.
-- * Executor.Run is `execute` of spark/executor.py along one thread (`parallel` false). Its Store
--   has the frames by their keys, its State the state of a run (frames, results, fired webhooks,
--   pending watermarks, observed modules, effects) and the parameters: `World` the handlers that call Spark, the clock, the
--   depot and the surveyor, `Plan` the manifest and the options. A frame is of any type. Regulator
--   is the polling of a gate, Steps what the branches of the code share, Channel and Branches one
--   function for each kind of module; Executor.Run joins them: the exclusion, the resumption from
--   checkpoints, the dispatch, the loop over the modules, and the choice of the result. An effect
--   is what the run does outside: the write of an Egress, its maintenance, a checkpoint, a
--   watermark, metrics, a probe.
--
-- The loop of a heal has fuel: `max 1 max_reprompts` rounds, as each round counts an attempt and
-- the attempt axis of the budget stops the loop there.
-- Kahn's loop has one round for each node, as it takes no node twice; the search has one round for
-- its start and one for each arc, as it follows the arcs of a node once. The expansion of Arcades
-- recurses on the levels that are left of the 11 that the code allows. A root of the union-find is
-- behind at most as many parents as there were unions. The polling of a gate counts milliseconds,
-- and has one round for each of its timeout, as a poll waits for 500 of them at least.
-- Graph.Kahn.Cycles, Graph.Search.Reach, Executor.Order.Probes, Executor.Components.Forests,
-- Executor.Run.Ran, Executor.Run.Gates, Compiler.Wirer.Walks, Patch.Operations.Frame,
-- Patch.Guardrails.Soundness, Patch.Apply.Commit, Agent.Loop.Round and Agent.Loop.Turn carry the
-- proofs of the results below; the Tests modules run the definitions.
--
-- Not modelled: the threads of a parallel run and the order in which they write the shared dicts,
-- the check of the hash of a resumed run, the UDFs, the metrics' contents and the lineage of a run;
-- the texts of errors and prompts, logging, redaction, the rest of the parser (the context
-- resolution, the schema) and of the compiler (the provenance, macros, lineage), the stores, the
-- surveyor, the command line and the handlers that call Spark.
pub mod Base
pub mod Graph
pub mod Parser
pub mod Compiler
pub mod Patch
pub mod Agent
pub mod Executor
