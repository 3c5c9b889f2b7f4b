-- ===== src/Lib.antt =====
-- Cimba Python, a host language for discrete-event models that run on a native engine.
--
-- The host program describes model classes (cimba/schema), lays their instances out in native
-- memory (cimba/layout), expands a configured model into trials (cimba/experiments) and draws
-- their inputs (cimba/inputs). All paths here are below the repository's src folder.
--
-- Base: numbers, lists, counting, and the result of a call that may raise. An exception is its
--   class; messages are left out.
-- Graph: cimba/diagrams/graph.py. `Graph.topological_order` is Kahn's algorithm with its two
--   dictionaries, its queue and its final test. The `while` loop has as much fuel as there are
--   keys, which is enough since each key enters the queue once.
-- Diagram: the lines of `Graph.to_mermaid` in the same file, each as what it is about.
-- Schema: cimba/schema. Scalars and Enums are the tests of scalars; floats and their conversion are
--   a parameter. Fields are the fields in `ClassSchema.of`, and Signatures, Slots and Classes its
--   methods: classes and names are numbered, and what Python's inspection reads of a class is a
--   parameter, also the annotations that `get_type_hints` merges of a class and its bases. The fuel of `class_schema` bounds the depth of the inheritance. Assembly is
--   `Assembly.of`: what the fields of a model hold is a parameter, with the copies of class defaults
--   as made, and labels are left out.
--   The fuel of `visit` bounds the depth of the tree; one more than the number of models is enough.
-- Modeling: cimba/modeling. The package root is sweeps and decisions, Entities the tests of entities
--   and the native level that cimba/experiments/snapshot.py gives a container, Observe and Defaults
--   are `Condition.observe` and the construction of a model, and Assign is `Model.__setattr__` on a
--   declaration that is resolved. Real numbers are a parameter.
-- Layout: cimba/layout. `RecordLayout.of` recurs over the base classes, `TrialImageLayout.of` is
--   its two loops. NumPy's aligned structure layout and element sizes are parameters.
-- Inputs: Inputs.Sources is cimba/inputs/sources.py. SHA-256, the test for finite numbers and the random
--   generators are parameters.
--   Inputs.Bootstrap is cimba/inputs/bootstrap.py over a generator known by its laws. The `while`
--   loop of `stationary_indices` has as much fuel as entries, and each run writes one at least.
-- Rows: `Snapshot.rows` and `Snapshot.trim_rows` of cimba/experiments/snapshot.py, with the
--   ordered dictionary as a list, oldest entry first.
-- Run: `Batch._run_single` of cimba/experiments/snapshot.py. What one trial yields from its
--   point and seed is a parameter, since the native engine runs each trial block on its own; so is what
--   the preparation of an execution raises.
--   Run.Extension is the loop of `Batch._run_core` that runs one trial again with longer rows. A row is
--   extended six times at most, so six runs for each input and one more are fuel enough.
--   Run.Observation is `Snapshot._observation_table`, over the entity fields of the tree in order.
-- Design: cimba/experiments/design.py. The fields of the instances hold values, sweeps and
--   distributions with swept parameters; `product` varies the last axis fastest.
-- Experiment: cimba/experiments/run.py. A point is what it binds, and a snapshot's trial maps a
--   point and a seed to an outcome. `only` takes trial numbers that are not negative. The seed hash
--   and `Snapshot.validate` are parameters.
-- Optimize: cimba/optimize/study.py, the cache of evaluations and the budget of a search, and the
--   population size of cimba/optimize/de.py. What a batch runs is a parameter: the simulation with
--   its errors, and the objective of the host, which works by the point. So are the calls that SciPy's
--   search makes; a search is their sequence up to the first stop. Optimize.Options is
--   `Optimization.evaluate` with its options; the candidate of a value is a parameter.
-- Tests: runs on small inputs, and the theorems applied to them.
--
-- Not modelled: the engine's C code and the ctypes and Numba bindings, which are calls of other
-- systems; statistics, distribution fitting and time-series decomposition, which are floating-point
-- calls of NumPy, SciPy and statsmodels; the coordinates of a search space, which are floats too; the
-- punctuation and escaping of rendered diagrams.
pub mod Base
pub mod Graph
pub mod Diagram
pub mod Schema
pub mod Layout
pub mod Inputs
pub mod Rows
pub mod Run
mod Tests
pub mod Design
pub mod Modeling
pub mod Experiment
pub mod Optimize
