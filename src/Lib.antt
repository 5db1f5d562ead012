-- ===== src/Lib.antt =====
-- Astinus takes an SBOM of a container image and enriches it: a pipeline of enrichers, each of
-- which reads the image and changes the SBOM in place. This library models the parts of it that
-- decide what the enriched SBOM says, as functions over lists and records, and proves what they
-- promise.
--
-- internal/enrich holds the pipeline. Enrich/Ordering.antt is ordering.go, the topological sort of
-- the enrichers (TopoSort, indexByName, buildGraph, kahn, cycleError as topo_sort, index_by_name,
-- build_graph, kahn, cycle_error). Enrich/Pipeline.antt is pipeline.go: run_pipeline sorts, runs
-- each enricher up to the first error and stamps the metadata. The two meet in the record Enricher
-- of Enrich/Interface.antt, whose field enrich is any function on the SBOM with an optional error.
--
-- internal/enrich/dedup is Dedup.antt: Key is dedupKey and pickPrimary, Merge is mergePair and the
-- unions that it is made of, Run is the bucketing and the emission of Run. internal/sbom/model is
-- Model.antt, the types that all of them share.
--
-- internal/sbom/cyclonedx is CycloneDx.antt: Wire has the structs of cyclonedx-go, Document and
-- Components the mapping in both directions, Parts and Relations that of hashes, licenses,
-- evidence and relationships, Bags the property bags, and Marks the fields that travel as
-- properties.
--
-- internal/image/layer is Layers.antt: walk, walk_layer and walk_header are Walk and walkLayer of
-- walker.go, with OCI whiteouts, and build_infos is buildInfos; Layers/Diff.antt is ComputeDiff of
-- diff.go. An image is what go-containerregistry and archive/tar deliver: layers that have a
-- digest or not and yield headers up to an end or an error.
--
-- Layers/Files.antt is WalkFiles of extract.go: it streams the image a second time and shows a
-- visitor each file that the walk found to be visible; Layers/Shown.antt says which these are,
-- apart from the code.
--
-- internal/image/runtime is Runtime.antt: normalize pairs the layers with the history, and
-- Runtime/Detect.antt is the chain of detectors of detect.go. internal/enrich/attribution is
-- Attribution.antt, which looks the components' paths up in the walked layers and rates how far
-- the answer can be trusted.
--
-- internal/enrich/basediff is BaseDiff.antt: Reference finds the base image in the labels,
-- Classify is the content strategy over the hashed files, Stamp gives origins by a layer
-- difference or for want of one, and Run is Enrich, which tries the strategies in order.
--
-- internal/policy and internal/enrich/compliance are Compliance.antt: Policy is the evaluation of
-- SeverityPolicy and Rules its default rules, Verdict is applyPolicy with the counts and the
-- status, Stamp is stampMetadata and stampPerComponent, and Run is Enrich.
--
-- internal/enrich/basediff/contenthash is ContentHash.antt: the Bloom filter of bloom.go, the
-- BaseSet of baseset.go, and in Scan the two readings of scan.go. internal/fingerprint/matcher is
-- Matcher.antt: Chain.Lookup as chain_lookup, and the cache of cached.go, whose calls run as a
-- whole or are cut after their reading.
--
-- internal/enrich/cpe is Cpe.antt: Name is cpe.go, Candidates is Classify and DedupeCandidates,
-- Purl is ParsePURL and the resolvers, Sources is the choice among sources of sources/multi.go
-- with its cache, and Enrich is enrichOne with writeResults. A confidence is a number of
-- hundredths. internal/policy/builtin/compliance is Validators.antt: Ntia, Structural and EuCra
-- are the four validators, which the compliance enricher runs, and Config is the conversion of the
-- overrides.
--
-- internal/image/auth is Auth.antt: the chain of credential providers and the one that reads the
-- environment.
--
-- internal/enrich/registry is Registry.antt: Resolve is the resolver with its memory cache, in
-- which a source is what it answers, Apply is applyMetadata, and Run is Enrich, which hands the
-- cache from one component to the next. The clock is a parameter.
--
-- internal/enrich/untracked/pathclassifier is PathClassifier.antt: Trie is trie.go, and Classify
-- holds New, Classify, Merge and validateRules, with the glob and regular expression engines as
-- parameters.
--
-- Text is a list of bytes, and Base/Strings.antt, Base/Decimal.antt and Base/Paths.antt are the
-- functions of Go's strings, strconv, fmt and path that the source calls; letters are folded in
-- ASCII only. A Go map is an association list; where the source ranges over one, the theorems hold
-- for any order of its entries. A float64 confidence is a whole number, since the code only
-- compares it. A time.Time is a count of seconds and nanoseconds in UTC.
--
-- The one loop without a structural bound, Kahn's queue in Enrich/Ordering.antt, runs on fuel of
-- one more than the number of enrichers; its queue is empty when it stops
-- (Enrich/Ordering/Run.antt).
--
-- Not modelled: the encoders and decoders of CycloneDX, the whole of SPDX, the network sources,
-- signing, telemetry, the command line, and the enrichers other than dedup, attribution, basediff,
-- cpe, registry and compliance. Opening an image, the float32 of a confidence, time.Parse and
-- Format, SHA-256 and the quoting of %q are parameters.
pub mod Base
pub mod Model
pub mod Enrich
pub mod Dedup
pub mod Layers
pub mod Attribution
pub mod Auth
pub mod BaseDiff
pub mod Compliance
pub mod ContentHash
pub mod Cpe
pub mod CycloneDx
pub mod Matcher
pub mod PathClassifier
pub mod Registry
pub mod Runtime
pub mod Validators
