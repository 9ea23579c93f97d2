-- ===== src/Lib.antt =====
-- Verification of three of the repository's programs: the security toolkit (security_toolkit/src), the
-- clone detector cdup (cdup/src) and the profiles of the chaos runner (runtime_chaos).
--
-- The security toolkit scans a target. The profiler turns a path, an image, a process or a URL into a
-- target profile; the engine selects the registered plugins that apply to it, runs them in a pool of
-- threads, collects what they return or raise, deduplicates and sorts the findings and files a status
-- for every plugin; the report sums the findings up and gives a verdict.
--
--   Security/Severity   NormalizedSeverity and normalize_severity of core/models.py
--   Security/Finding    Finding, its fingerprint and to_dict of core/models.py
--   Security/Report     ScanReport of core/models.py: deduplicate, sort_by_severity, severity_counts,
--                       _verdict
--   Security/Json       the data that to_json of core/models.py prints
--   Security/Plugin     core/plugin.py: the registry and instantiate_plugins; TargetProfile
--   Security/Engine     core/engine.py: ScanEngine.run and all it calls
--   Security/Profiler   core/profiler.py: the scans of a directory, the ports, profile_target
--
-- The thread pool is the order in which the plugins complete, an argument: some permutation of the
-- submitted plugins. A plugin is its name, its modes and its two
-- methods, each a function of the profile that returns or raises. SHA-256, the answers of Docker and of
-- urlparse, the resolution of a path and the file system are parameters; the file system is a finite
-- tree without symbolic links. Texts are lists of character codes, and letters and white space are
-- those of ASCII.
--
-- cdup parses a program to segments (its functions, loops and branches) and builds from them the
-- dependency matrix, whose columns are scoped slots and whose rows are statements and phi rows, with the
-- slots that each reads and writes, and from the matrix a data-flow graph.
--
--   Cdup/Ir             models.py: slots, statements and segments; the shapes of expression trees
--   Cdup/Json           models.py: the to_dict methods
--   Cdup/Expr           expr.py: _tokenize (Tokens), _nud (Parser), _led, parse, parse_expr and
--                       build_assign_expr (Pratt)
--   Cdup/Clones         detect.py: the norms (Normalize), the scan of detect_clones (Scan), the filters
--                       on classes (Filters), Type IV (Semantic)
--   Cdup/Vm             vm.py: the memory of the machine (Memory)
--   Cdup/Slots          matrix.py: _resolve_slot, _resolve_expr
--   Cdup/Rows           matrix.py: _extract_literal_slots, _stmt_to_row, _make_row
--   Cdup/Matrix         matrix.py: the phi rows, the walk over the segments, build_matrix
--   Cdup/Nodes          dag.py: the nodes of the data-flow graph
--   Cdup/Dag            dag.py: the edges, build_dag
--
-- The literals of a statement and the names of constant slots come from parse.py: a parameter. The walk
-- over the segment tree takes fuel, one unit for each level of nesting; the parser numbers a segment
-- after its parent, so that fuel beyond every number is enough. The parser of expressions takes fuel of
-- three times the number of tokens and two more; its exceptions are a result, and whether float accepts a
-- text is a parameter. A fingerprint of Type IV takes fuel for as many levels as there are segments; the
-- hash of a signature is a parameter.
--
-- The chaos runner starts a container under a profile, a first resource snapshot and later ones, each of
-- which becomes flags of docker and commands inside the container.
--
--   Chaos/Config        chaos_config.py: the snapshots, their flags and commands, the profiles
--
-- Each part's laws stand in its child modules, named for what they prove; the Examples of each
-- program apply them to concrete values. Prelude has what the parts share: Boolean
-- tests on native numbers, dictionaries as association lists, sorting, text.
--
-- Not modelled: printing and files, command lines, the scanner plugins themselves, the sandbox,
-- the parsers of programs and the kernel in cdup, of its vm.py the execution of statements, strcpy,
-- strcmp and lists in memory, of its detect.py the numbers of blocks, the table from runs to classes
-- and Type III, of its expr.py extract_condition, cdup/legacy, the rest of runtime_chaos, comments,
-- and the sample programs.
pub mod Prelude
pub mod Security
pub mod Cdup
pub mod Chaos
